-- ===== src/Consciousness/Llm/Tests.antt =====
-- A model whose every token is the letter a.
use aion_os.Prelude.{
  ℕ, ◌+◌, ◌<◌, ◌≡◌, ◌≢◌, ap, true, false, some, none, List, [], ◌∷◌, arith, length, take,
  length-take,
}
use aion_os.Consciousness.Text.{codes}
use aion_os.Consciousness.Llm.{ctx_size, batch_tokens, Llama, Llm, llm_feed, llm_think}
use aion_os.Consciousness.Llm.Output.{HasContext, Thinks, llm_think-Thinks}
use aion_os.Consciousness.Llm.Context.{Fits, IsBatched, Fed, llm_feed-Fed}
use aion_os.Consciousness.Llm.Runs.{think, here, next, Reach-llm_feed}

-- The state of a context is the number of its evaluations.
llama : Llama ℕ
llama = record {
  load_model = true;
  new_context = some 0;
  tokenize = λ text bos k. some (take batch_tokens text);
  kv_cache_clear = λ k. k;
  decode = λ tokens k. (0, k + 1);
  sample = λ k. (b'a', k);
  is_eog = λ tok. false;
  to_piece = λ tok. some (tok ∷ []);
}

some_inj : {a b : List ℕ} → some a ≡ some b → a ≡ b
some_inj e = cc

llama-IsBatched : IsBatched llama
unfolding llama
llama-IsBatched text bos k new e =
    omega (arith, ap length (some_inj e), length-take batch_tokens text)

abbrev started : Llm ℕ
started = record { ctx = some 0; model = true; ready = true; context = 1 ∷ 2 ∷ []; msr = 4096 }

started-Fits : Fits started
unfolding HasContext
started-Fits = record { window = omega arith; live = tt }

llm_think-Thinks_example : Thinks 16 8 started (llm_think llama 16 8 started)
unfolding HasContext
llm_think-Thinks_example = llm_think-Thinks llama 16 8 started tt (omega arith)

llm_feed-Fed_example :
    Fed llama started (some (codes "t:1")) (llm_feed llama (some (codes "t:1")) started)
llm_feed-Fed_example = llm_feed-Fed llama started started-Fits (some (codes "t:1")) llama-IsBatched

Reach-llm_feed_example :
    let t = (llm_think llama 16 8 started).1 in
    (length t.context < ctx_size) × (llm_feed llama (some (codes "t:1")) t ≢ none)
Reach-llm_feed_example =
    Reach-llm_feed llama llama-IsBatched started (llm_think llama 16 8 started).1 started-Fits
      (next here (think started 16 8 (omega arith))) (some (codes "t:1"))
