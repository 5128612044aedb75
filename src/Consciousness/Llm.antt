-- ===== src/Consciousness/Llm.antt =====
-- The language model runtime of consciousness/runtime/llm.c: the tokens of the context, and the
-- calls of llama.cpp, which is not part of the repository.
pub mod Context
pub mod Runs
pub mod Output
mod Tests
use aion_os.Prelude.{
  ℕ, zero, suc, ◌+◌, ◌-◌, ◌*◌, ◌/◌, ◌^◌, Bool, true, false, not, ◌||◌, Option, none, some, List, [],
  ◌∷◌, ◌++◌, ltb, leb, ◌==◌, if◌then◌else◌, length, drop,
}
use aion_os.Consciousness.Text.{Text}

abbrev pub ctx_size : ℕ
ctx_size = 4096

abbrev pub batch_tokens : ℕ
batch_tokens = 512

-- The calls of llama.cpp over the states of a context. A tokenizer with room for 512 tokens returns
-- them, or `none` for a negative number. `decode` is 0 when it succeeds. The sampler chain, which is
-- made for each call of `llm_think`, is part of `sample`.
pub record Llama (K : Type 0) : Type 0 where
  pub load_model : Bool
  pub new_context : Option K
  pub tokenize : Text → Bool → K → Option (List ℕ)
  pub kv_cache_clear : K → K
  pub decode : List ℕ → K → ℕ × K
  pub sample : K → ℕ × K
  pub is_eog : ℕ → Bool
  pub to_piece : ℕ → Option Text

-- The static variables. `context` is the first `context_len` elements of `context_tokens`, `ctx` is
-- absent before `llm_init` and after `llm_shutdown`, and `msr` is the last value written to the
-- register 0x199. `model` says that the pointer is not NULL: it is kept when there is no context,
-- although the model is freed then.
pub record Llm (K : Type 0) : Type 0 where
  pub ctx : Option K
  pub model : Bool
  pub ready : Bool
  pub context : List ℕ
  pub msr : ℕ

-- What `int` a call returns: a negative number, or what a decode returned.
pub data Outcome : Type 0 where
  refused : ℕ → Outcome
  decoded : ℕ → Outcome

-- The oldest quarter is forgotten when there is no room for `n` more tokens.
abbrev pub keep : ℕ
keep = ctx_size * 3 / 4

pub is_over : ℕ → List ℕ → Bool
is_over n context = ltb (ctx_size - 128) (length context + n)

-- What the loop of `llm_think` works on: the output and the context.
pub record Thought (K : Type 0) : Type 0 where
  pub out : Text
  pub tokens : List ℕ
  pub k : K

-- `if (out_pos + plen < out_sz - 1)`: a piece without room is left out.
pub add_piece : ℕ → Text → Text → Text
add_piece out_sz piece out =
    if ltb (length out + length piece + 1) out_sz then out ++ piece else out

-- `if (context_len < CTX_SIZE - 1)`
pub add_token : ℕ → List ℕ → List ℕ
add_token tok context = if ltb (length context) (ctx_size - 1) then context ++ tok ∷ [] else context

module _ {K : Type 0} (llama : Llama K) where
  -- `llm_init` from the context on.
  pub start_context : Option K → Llm K → Outcome × Llm K
  start_context none s = (refused 2, record s { ctx = none; model = true; msr = 34 * 2 ^ 8 })
  start_context (some k) s =
      (decoded 0, record s { ctx = some k; model = true; ready = true; msr = 16 * 2 ^ 8 })

  pub llm_init : Llm K → Outcome × Llm K
  unfolding start_context
  llm_init s =
      if llama.load_model
      then start_context llama.new_context s
      else (refused 1, record s { model = false; msr = 34 * 2 ^ 8 })

  -- The memmove, the clearing of the cache and the evaluation of what is kept. `none` is a memmove
  -- from before the array.
  pub compress : ℕ → List ℕ → K → Option (List ℕ × K)
  compress n context k =
      if is_over n context
      then (if ltb (length context) keep
          then none
          else let kept = drop (length context - keep) context in
            some (kept, (llama.decode kept (llama.kv_cache_clear k)).1))
      else some (context, k)

  -- The rest of `llm_feed`. `none` is a memcpy past the end of `context_tokens`.
  pub append_tokens : List ℕ → Option (List ℕ × K) → Llm K → Option (Outcome × Llm K)
  append_tokens new none s = none
  append_tokens new (some (context, k)) s =
      if ltb ctx_size (length context + length new)
      then none
      else let (result, k') = llama.decode new k in
        some (decoded result, record s { ctx = some k'; context = context ++ new })

  pub feed_tokens : Option (List ℕ) → K → Llm K → Option (Outcome × Llm K)
  unfolding compress append_tokens
  feed_tokens none k s = some (refused 1, s)
  feed_tokens (some new) k s = append_tokens new (compress (length new) s.context k) s

  -- For a `ready` that stands for a context, and a text that is not NULL.
  pub feed_on : Text → Option K → Llm K → Option (Outcome × Llm K)
  unfolding feed_tokens
  feed_on text none s = none
  feed_on text (some k) s = feed_tokens (llama.tokenize text (length s.context == 0) k) k s

  -- `none` as text is NULL.
  pub llm_feed : Option Text → Llm K → Option (Outcome × Llm K)
  unfolding feed_on
  llm_feed none s = some (refused 1, s)
  llm_feed (some text) s = if s.ready then feed_on text s.ctx s else some (refused 1, s)

  -- The state behind a token with a piece, and whether its decoding failed.
  pub take_token : ℕ → ℕ → Text → Thought K → Bool × Thought K
  unfolding add_piece add_token
  take_token out_sz tok piece t =
      let (result, k') = llama.decode (tok ∷ []) t.k in
      (
        not (result == 0),
        record { out = add_piece out_sz piece t.out; tokens = add_token tok t.tokens; k = k' },
      )

  pub or_stop : (Thought K → Thought K) → Bool × Thought K → Thought K
  or_stop next (true, t) = t
  or_stop next (false, t) = next t

  -- The body behind the test for the end of generation: `break` without a piece.
  pub think_token : ℕ → (Thought K → Thought K) → ℕ → Option Text → Thought K → Thought K
  unfolding take_token or_stop
  think_token out_sz next tok none t = t
  think_token out_sz next tok (some piece) t = or_stop next (take_token out_sz tok piece t)

  -- The loop of `llm_think`, with `max_tokens - generated` rounds left.
  pub think_loop : ℕ → ℕ → Thought K → Thought K
  unfolding think_token
  think_loop zero out_sz t = t
  think_loop (suc n) out_sz t =
      let (tok, k') = llama.sample t.k in
      let t' : Thought K = record { out = t.out; tokens = t.tokens; k = k' } in
      if llama.is_eog tok
      then t'
      else think_token out_sz (λ u. think_loop n out_sz u) tok (llama.to_piece tok) t'

  -- The output and the state; `none` is the result -1. For a `ready` that stands for a context.
  pub think_on : ℕ → ℕ → Option K → Llm K → Option Text × Llm K
  think_on out_sz max_tokens none s = (none, s)
  think_on out_sz max_tokens (some k) s =
      let t = think_loop max_tokens out_sz (record { out = []; tokens = s.context; k = k }) in
      (some t.out, record s { ctx = some t.k; context = t.tokens })

  pub llm_think : ℕ → ℕ → Llm K → Option Text × Llm K
  unfolding think_on
  llm_think out_sz max_tokens s =
      if not s.ready || length s.context == 0 then (none, s) else think_on out_sz max_tokens s.ctx s

pub llm_shutdown : {K : Type 0} → Llm K → Llm K
llm_shutdown s = record s { ctx = none; model = false; ready = false }

pub llm_is_ready : {K : Type 0} → Llm K → Bool
llm_is_ready s = s.ready

pub llm_context_len : {K : Type 0} → Llm K → ℕ
llm_context_len s = length s.context
