-- ===== src/Consciousness/Llm/Runs.antt =====
-- The runs of the calls of the runtime, and what holds behind each of them.
use mathlib.Core.Path.{subst}
use aion_os.Prelude.{
  ℕ, ◌*◌, ◌^◌, ◌<◌, ◌≡◌, ◌≢◌, sym, Bool, false, Option, none, some, if◌then◌else◌, length,
  Bool-cases, inl, inr,
}
use aion_os.Consciousness.Text.{Text}
use aion_os.Consciousness.Llm.{
  ctx_size, Llama, Llm, Outcome, refused, llm_feed, llm_init, start_context, llm_think,
  llm_shutdown,
}
use aion_os.Consciousness.Llm.Output.{HasContext, llm_think-Thinks}
use aion_os.Consciousness.Llm.Context.{
  Fits, IsBatched, llm_feed-Fed, Leaves, Fed-Fits, Fed-not_none, Thinks-Fits,
}

-- The calls of the runtime. `llm_init` is called before the model is ready.
pub data Step {K : Type 0} (llama : Llama K) : Llm K → Llm K → Type 0 where
  init : (s : Llm K) → s.ready ≡ false → Step llama s (llm_init llama s).1
  feed :
      (s t : Llm K) (text : Option Text) (o : Outcome)
      → llm_feed llama text s ≡ some (o, t)
      → Step llama s t
  think :
      (s : Llm K) (out_sz max_tokens : ℕ)
      → 0 < out_sz
      → Step llama s (llm_think llama out_sz max_tokens s).1
  shutdown : (s : Llm K) → Step llama s (llm_shutdown s)

pub data Reach {K : Type 0} (llama : Llama K) (s : Llm K) : Llm K → Type 0 where
  here : Reach llama s s
  next : {t u : Llm K} → Reach llama s t → Step llama t u → Reach llama s u

module _ {K : Type 0} (llama : Llama K) (batched : IsBatched llama) where
  start-Fits :
      (s : Llm K) (o : Option K) → Fits s → s.ready ≡ false → Fits (start_context llama o s).1
  unfolding start_context HasContext
  start-Fits s none fits fresh = record {
    window = fits.window;
    live = subst (λ b. HasContext {K = K} b none) (sym fresh) tt;
  }
  start-Fits s (some k) fits fresh = record { window = fits.window; live = tt }

  abbrev branch : Bool → Llm K → Outcome × Llm K
  branch b s =
      if b
      then start_context llama llama.new_context s
      else (refused 1, record s { model = false; msr = 34 * 2 ^ 8 })

  init-Fits : (s : Llm K) → Fits s → s.ready ≡ false → Fits (llm_init llama s).1
  unfolding llm_init
  init-Fits s fits fresh = elim (Bool-cases llama.load_model) [
    | inl loaded ↦
        subst (λ b. Fits (branch b s).1) (sym loaded) (start-Fits s llama.new_context fits fresh)
    | inr failed ↦
        subst (λ b. Fits (branch b s).1) (sym failed)
          (record { window = fits.window; live = fits.live })
  ]

  Step-Fits : {s t : Llm K} → Fits s → Step llama s t → Fits t
  unfolding llm_shutdown HasContext
  Step-Fits fits (init s fresh) = init-Fits s fits fresh
  Step-Fits fits (feed s t text o e) =
      subst (Leaves Fits) e (Fed-Fits fits (llm_feed-Fed llama s fits text batched))
  Step-Fits fits (think s out_sz max_tokens room) =
      Thinks-Fits fits (llm_think-Thinks llama out_sz max_tokens s fits.live room)
  Step-Fits fits (shutdown s) = record { window = fits.window; live = tt }

  Reach-Fits : {s t : Llm K} → Fits s → Reach llama s t → Fits t
  Reach-Fits fits here = fits
  Reach-Fits fits (next run step) = Step-Fits (Reach-Fits fits run) step

  -- From a context that fits, and with a tokenizer that keeps to its room of 512 tokens: however
  -- the calls of the runtime follow one another, `llm_init` only while the model is not ready, the
  -- context stays below its 4096 tokens, and the next text never makes `llm_feed` touch memory
  -- outside of the array.
  pub Reach-llm_feed :
      (s t : Llm K)
      → Fits s
      → Reach llama s t
      → (text : Option Text) → (length t.context < ctx_size) × (llm_feed llama text t ≢ none)
  Reach-llm_feed s t fits run text =
      let there = Reach-Fits fits run in
      (there.window, Fed-not_none (llm_feed-Fed llama t there text batched))
