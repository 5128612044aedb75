-- ===== src/Consciousness/Llm/Context.antt =====
-- The context window of consciousness/runtime/llm.c: what `llm_feed` leaves in it.
use mathlib.Core.Path.{subst}
use aion_os.Prelude.{
  ℕ, ◌+◌, ◌-◌, ◌≤◌, ◌<◌, ◌≡◌, ◌≢◌, refl, sym, Bool, true, false, Option, none, some, List, ◌++◌,
  arith, ltb, ◌==◌, if◌then◌else◌, length, drop, length-append, length-drop, Bool-cases, inl, inr,
}
use aion_os.Consciousness.Text.{Text}
use aion_os.Consciousness.Llm.{
  ctx_size, batch_tokens, keep, is_over, Llama, Llm, Outcome, refused, decoded, compress,
  append_tokens, feed_tokens, feed_on, llm_feed,
}
use aion_os.Consciousness.Llm.Output.{HasContext, Thinks, silent, spoken}

-- The state between calls.
pub record Fits {K : Type 0} (s : Llm K) : Type 0 where
  pub window : length s.context < ctx_size
  pub live : HasContext s.ready s.ctx

-- The tokenizer is told that there is room for 512 tokens.
abbrev pub IsBatched : {K : Type 0} → Llama K → Type 0
IsBatched {K} llama =
    (text : Text) (bos : Bool) (k : K) (new : List ℕ)
    → llama.tokenize text bos k ≡ some new
    → length new ≤ batch_tokens

-- What is left of the context before `n` tokens are added: all, or its latest 3072 tokens.
pub remembered : ℕ → List ℕ → List ℕ
remembered n context = if is_over n context then drop (length context - keep) context else context

pub remembered_fits :
    (n : ℕ) (context : List ℕ)
    → length context < ctx_size
    → n ≤ batch_tokens
    → length (remembered n context) + n ≤ ctx_size - 128
unfolding remembered is_over
remembered_fits n context h hn = ground (arith, length-drop (length context - keep) context)

-- llama.cpp behind the forgetting: it has the kept tokens only, or it is as it was.
pub forgotten : {K : Type 0} → Llama K → ℕ → List ℕ → K → K
forgotten llama n context k =
    if is_over n context
    then (llama.decode (remembered n context) (llama.kv_cache_clear k)).1
    else k

-- What `llm_feed` returns for a text, with the state that it leaves. It refuses for three reasons;
-- otherwise it adds the tokens of the text and returns what their evaluation returned.
pub data Fed {K : Type 0} (llama : Llama K) (s : Llm K) (text : Option Text)
    : Option (Outcome × Llm K) → Type 0 where
  no_text : text ≡ none → Fed llama s text (some (refused 1, s))
  not_ready : s.ready ≡ false → Fed llama s text (some (refused 1, s))
  no_tokens :
      (t : Text) (k : K)
      → text ≡ some t
      → s.ready ≡ true
      → s.ctx ≡ some k
      → llama.tokenize t (length s.context == 0) k ≡ none
      → Fed llama s text (some (refused 1, s))
  fed :
      (t : Text) (k : K) (new : List ℕ)
      → text ≡ some t
      → s.ready ≡ true
      → s.ctx ≡ some k
      → llama.tokenize t (length s.context == 0) k ≡ some new
      → length (remembered (length new) s.context ++ new) ≤ ctx_size - 128
      → Fed llama s text (
          some (
            decoded (llama.decode new (forgotten llama (length new) s.context k)).0,
            record s {
              ctx = some (llama.decode new (forgotten llama (length new) s.context k)).1;
              context = remembered (length new) s.context ++ new;
            },
          ))

compress_lem :
    {K : Type 0} (llama : Llama K) (n : ℕ) (context : List ℕ) (k : K)
    → n ≤ batch_tokens
    → compress llama n context k ≡ some (remembered n context, forgotten llama n context k)
unfolding compress remembered forgotten is_over
compress_lem llama n context k hn = elim (Bool-cases (ltb (ctx_size - 128) (length context + n))) [
  | inl over ↦
      let enough : ltb (length context) keep ≡ false = ground arith in rw (over, enough) refl
  | inr room ↦ rw room refl
]

module _ {K : Type 0} (llama : Llama K) (s : Llm K) (fits : Fits s) (text : Option Text) where
  append_tokens-Fed :
      (t : Text) (k : K) (new : List ℕ)
      → text ≡ some t
      → s.ready ≡ true
      → s.ctx ≡ some k
      → llama.tokenize t (length s.context == 0) k ≡ some new
      → length new ≤ batch_tokens
      → Fed llama s text (
          append_tokens llama new
            (some (remembered (length new) s.context, forgotten llama (length new) s.context k))
            s)
  unfolding append_tokens
  append_tokens-Fed t k new et er ek en hn =
      let room = remembered_fits (length new) s.context fits.window hn in
      let inside : ltb ctx_size (length (remembered (length new) s.context) + length new) ≡ false =
        ground arith in
      rw inside (
        fed t k new et er ek en
          (omega (arith, room, length-append (remembered (length new) s.context) new)))

  feed_tokens-Fed :
      (t : Text) (k : K) (o : Option (List ℕ))
      → IsBatched llama
      → text ≡ some t
      → s.ready ≡ true
      → s.ctx ≡ some k
      → llama.tokenize t (length s.context == 0) k ≡ o
      → Fed llama s text (feed_tokens llama o k s)
  unfolding feed_tokens
  feed_tokens-Fed t k none batched et er ek en = no_tokens t k et er ek en
  feed_tokens-Fed t k (some new) batched et er ek en =
      let small = batched t (length s.context == 0) k new en in
      rw (compress_lem llama (length new) s.context k small)
        (append_tokens-Fed t k new et er ek en small)

  feed_on-Fed :
      (t : Text) (o : Option K)
      → IsBatched llama
      → text ≡ some t
      → s.ready ≡ true
      → HasContext true o
      → s.ctx ≡ o
      → Fed llama s text (feed_on llama t o s)
  unfolding feed_on HasContext
  feed_on-Fed t none batched et er live ek = absurd live
  feed_on-Fed t (some k) batched et er live ek =
      feed_tokens-Fed t k (llama.tokenize t (length s.context == 0) k) batched et er ek refl

module _ {K : Type 0} (llama : Llama K) (s : Llm K) (fits : Fits s) where
  -- From a context that fits, and with a tokenizer that keeps to its room of 512 tokens, `llm_feed`
  -- never leaves the array of tokens. It refuses, and changes nothing then, only without a text,
  -- before the model is ready, or when the tokenizer fails. Otherwise the context afterwards is what
  -- it held, or its latest 3072 tokens where there was no room, followed by the tokens of the text;
  -- 128 tokens stay free, and llama.cpp has evaluated the new tokens behind the kept ones.
  pub llm_feed-Fed :
      (text : Option Text) → IsBatched llama → Fed llama s text (llm_feed llama text s)
  unfolding llm_feed
  llm_feed-Fed none batched = no_text refl
  llm_feed-Fed (some text) batched = elim (Bool-cases s.ready) [
    | inl ready ↦
        subst
          (λ b.
            Fed llama s (some text) (if b then feed_on llama text s.ctx s else some (refused 1, s)))
          (sym ready)
          (feed_on-Fed llama s fits (some text) text s.ctx batched refl ready
            (subst (λ b. HasContext b s.ctx) ready fits.live) refl)
    | inr off ↦
        subst
          (λ b.
            Fed llama s (some text) (if b then feed_on llama text s.ctx s else some (refused 1, s)))
          (sym off) (not_ready off)
  ]

-- The state that a call leaves, if there is one.
abbrev pub Leaves : {K : Type 0} → (Llm K → Type 0) → Option (Outcome × Llm K) → Type 0
Leaves P none = Unit
Leaves P (some (o, t)) = P t

HasContext-some : {K : Type 0} (b : Bool) (k : K) → HasContext b (some k)
unfolding HasContext
HasContext-some false k = tt
HasContext-some true k = tt

pub Fed-Fits :
    {K : Type 0} {llama : Llama K} {s : Llm K} {text : Option Text} {res : Option (Outcome × Llm K)}
    → Fits s
    → Fed llama s text res
    → Leaves Fits res
Fed-Fits fits (no_text et) = fits
Fed-Fits fits (not_ready off) = fits
Fed-Fits fits (no_tokens t k et er ek en) = fits
Fed-Fits {s} fits (fed t k new et er ek en room) = record {
  window = omega arith;
  live = HasContext-some s.ready _;
}

pub Thinks-Fits :
    {K : Type 0} {out_sz max_tokens : ℕ} {s : Llm K} {res : Option Text × Llm K}
    → Fits s
    → Thinks out_sz max_tokens s res
    → Fits res.1
Thinks-Fits fits (silent why) = fits
Thinks-Fits {s} fits (spoken text added context k short same few window) = record {
  window = window fits.window;
  live = HasContext-some s.ready k;
}

pub Fed-not_none :
    {K : Type 0} {llama : Llama K} {s : Llm K} {text : Option Text} {res : Option (Outcome × Llm K)}
    → Fed llama s text res
    → res ≢ none
Fed-not_none (no_text why) e = cc
Fed-not_none (not_ready why) e = cc
Fed-not_none (no_tokens t k et er ek en) e = cc
Fed-not_none (fed t k new et er ek en room) e = cc
