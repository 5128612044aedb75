-- ===== src/Consciousness/Llm/Output.antt =====
-- `llm_think`: its output fits into the buffer, and what it adds to the context into the window.
use mathlib.Core.Path.{subst}
use mathlib.Core.List.{append_assoc, append-nil}
use aion_os.Prelude.{
  ℕ, zero, suc, ◌+◌, ◌-◌, ◌≤◌, ◌<◌, ◌≡◌, refl, ap, sym, ◌∙◌, Bool, true, false, not, ◌||◌, Option,
  none, some, ◌⊎◌, List, [], ◌∷◌, ◌++◌, arith, ltb, ◌==◌, if◌then◌else◌, length, length-append,
  Bool-cases, inl, inr,
}
use aion_os.Consciousness.Text.{Text}
use aion_os.Consciousness.Llm.{
  ctx_size, Llama, Llm, Thought, add_piece, add_token, take_token, or_stop, think_token, think_loop,
  think_on, llm_think,
}

-- What the loop makes of a thought `t`, in at most `n` rounds.
pub record Continues {K : Type 0} (n out_sz : ℕ) (t u : Thought K) : Type 0 where
  pub fits : length t.out < out_sz → length u.out < out_sz
  pub added : List ℕ
  pub context : u.tokens ≡ t.tokens ++ added
  pub rounds : length added ≤ n
  pub window : length t.tokens < ctx_size → length u.tokens < ctx_size

add_piece-fits :
    (out_sz : ℕ) (piece out : Text)
    → length out < out_sz
    → length (add_piece out_sz piece out) < out_sz
unfolding add_piece
add_piece-fits out_sz piece out h = elim (Bool-cases (ltb (length out + length piece + 1) out_sz)) [
  | inl room ↦ rw room (ground (arith, length-append out piece))
  | inr full ↦ rw full h
]

added_token : ℕ → List ℕ → List ℕ
added_token tok context = if ltb (length context) (ctx_size - 1) then tok ∷ [] else []

add_token_lem :
    (tok : ℕ) (context : List ℕ)
    → (add_token tok context ≡ context ++ added_token tok context)
      × (length (added_token tok context) ≤ 1)
      × (length context < ctx_size → length (add_token tok context) < ctx_size)
unfolding add_token added_token
add_token_lem tok context = elim (Bool-cases (ltb (length context) (ctx_size - 1))) [
  | inl room ↦ rw room (refl, omega arith, λ h. ground (arith, length-append context (tok ∷ [])))
  | inr full ↦ rw full (sym (append-nil context), omega arith, λ h. h)
]

module _ {K : Type 0} where
  Continues-refl :
      (n out_sz : ℕ) (t u : Thought K)
      → u.out ≡ t.out
      → u.tokens ≡ t.tokens
      → Continues n out_sz t u
  Continues-refl n out_sz t u same_out same_tokens = record {
    fits = λ h. omega (arith, ap length same_out);
    added = [];
    context = same_tokens ∙ sym (append-nil t.tokens);
    rounds = omega arith;
    window = λ h. omega (arith, ap length same_tokens);
  }

  Continues-trans :
      (n out_sz : ℕ) (t u v : Thought K)
      → Continues 1 out_sz t u
      → Continues n out_sz u v
      → Continues (suc n) out_sz t v
  Continues-trans n out_sz t u v a b = record {
    fits = λ h. b.fits (a.fits h);
    added = a.added ++ b.added;
    context = b.context ∙ ap (λ l. l ++ b.added) a.context ∙ append_assoc t.tokens a.added b.added;
    rounds = omega (arith, length-append a.added b.added, a.rounds, b.rounds);
    window = λ h. b.window (a.window h);
  }

  relabel :
      (n out_sz : ℕ) (t u : Thought K) (k : K)
      → Continues n out_sz (record { out = t.out; tokens = t.tokens; k = k }) u
      → Continues n out_sz t u
  relabel n out_sz t u k c = record {
    fits = c.fits;
    added = c.added;
    context = c.context;
    rounds = c.rounds;
    window = c.window;
  }

  module _ (llama : Llama K) where
    take_token-Continues :
        (out_sz tok : ℕ) (piece : Text) (t : Thought K)
        → Continues 1 out_sz t (take_token llama out_sz tok piece t).1
    unfolding take_token
    take_token-Continues out_sz tok piece t =
        let (context, one, window) = add_token_lem tok t.tokens in
        record {
          fits = λ h. add_piece-fits out_sz piece t.out h;
          added = added_token tok t.tokens;
          context = context;
          rounds = one;
          window = window;
        }

    or_stop-Continues :
        (n out_sz : ℕ) (t : Thought K) (next : Thought K → Thought K) (res : Bool × Thought K)
        → Continues 1 out_sz t res.1
        → ((u : Thought K) → Continues n out_sz u (next u))
        → Continues (suc n) out_sz t (or_stop llama next res)
    unfolding or_stop
    or_stop-Continues n out_sz t next (true, u) one rest =
        Continues-trans n out_sz t u u one (Continues-refl n out_sz u u refl refl)
    or_stop-Continues n out_sz t next (false, u) one rest =
        Continues-trans n out_sz t u (next u) one (rest u)

    think_token-Continues :
        (n out_sz tok : ℕ) (t : Thought K) (next : Thought K → Thought K) (piece : Option Text)
        → ((u : Thought K) → Continues n out_sz u (next u))
        → Continues (suc n) out_sz t (think_token llama out_sz next tok piece t)
    unfolding think_token
    think_token-Continues n out_sz tok t next none rest =
        Continues-refl (suc n) out_sz t t refl refl
    think_token-Continues n out_sz tok t next (some piece) rest =
        or_stop-Continues n out_sz t next (take_token llama out_sz tok piece t)
          (take_token-Continues out_sz tok piece t) rest

    think_loop-Continues :
        (n out_sz : ℕ) (t : Thought K) → Continues n out_sz t (think_loop llama n out_sz t)
    unfolding think_loop
    think_loop-Continues zero out_sz t = Continues-refl 0 out_sz t t refl refl
    think_loop-Continues (suc n) out_sz t =
        let r = llama.sample t.k in
        let t' : Thought K = record { out = t.out; tokens = t.tokens; k = r.1 } in
        elim (Bool-cases (llama.is_eog r.0)) [
          | inl ended ↦ rw ended (Continues-refl (suc n) out_sz t t' refl refl)
          | inr more ↦ rw more (
              relabel (suc n) out_sz t
                (think_token llama out_sz (λ u. think_loop llama n out_sz u) r.0
                  (llama.to_piece r.0) t')
                r.1
                (think_token-Continues n out_sz r.0 t' (λ u. think_loop llama n out_sz u)
                  (llama.to_piece r.0) (λ u. think_loop-Continues n out_sz u)))
        ]

-- A runtime that is ready has a context of llama.cpp.
unfoldable pub HasContext : {K : Type 0} → Bool → Option K → Type 0
HasContext false o = Unit
HasContext true none = ⊥
HasContext true (some k) = Unit

-- What `llm_think` may return, with the state that it leaves.
pub data Thinks {K : Type 0} (out_sz max_tokens : ℕ) (s : Llm K)
    : Option Text × Llm K → Type 0 where
  silent : (s.ready ≡ false) ⊎ (length s.context ≡ 0) → Thinks out_sz max_tokens s (none, s)
  spoken :
      (text : Text) (added context : List ℕ) (k : K)
      → length text < out_sz
      → context ≡ s.context ++ added
      → length added ≤ max_tokens
      → (length s.context < ctx_size → length context < ctx_size)
      → Thinks out_sz max_tokens s (some text, record s { ctx = some k; context = context })

module _ {K : Type 0} (llama : Llama K) (out_sz max_tokens : ℕ) (s : Llm K) where
  think_on-Thinks :
      (o : Option K)
      → HasContext true o
      → 0 < out_sz
      → Thinks out_sz max_tokens s (think_on llama out_sz max_tokens o s)
  unfolding think_on HasContext
  think_on-Thinks none live room = absurd live
  think_on-Thinks (some k) live room =
      let c =
        think_loop-Continues llama max_tokens out_sz
          (record { out = []; tokens = s.context; k = k }) in
      spoken _ c.added _ _ (c.fits room) c.context c.rounds c.window

  -- With a context of llama.cpp behind `ready` and a buffer that is not empty, `llm_think` ends. It
  -- returns -1, and changes nothing then, only when the model is not ready or the context is empty.
  -- Otherwise its text has room for the terminator in the buffer, the context keeps what it holds,
  -- at most `max_tokens` tokens come to it, and a context that is not full does not fill up.
  pub llm_think-Thinks :
      HasContext s.ready s.ctx
      → 0 < out_sz
      → Thinks out_sz max_tokens s (llm_think llama out_sz max_tokens s)
  unfolding llm_think
  llm_think-Thinks live room = elim (Bool-cases (not s.ready || length s.context == 0)) [
    | inl stop ↦ rw stop (silent (ground arith))
    | inr go ↦
        let ready : s.ready ≡ true = ground arith in
        rw go (think_on-Thinks s.ctx (subst (λ b. HasContext b s.ctx) ready live) room)
  ]
