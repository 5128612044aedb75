-- ===== src/Consciousness/Action/Results/Kept.antt =====
-- The results that are kept for the next tick.
use aion_os.Prelude.{
  ℕ, zero, suc, ◌*◌, ◌≤◌, ◌<◌, ◌≡◌, refl, ap, sym, ◌∙◌, true, false, List, [], ◌∷◌, ◌++◌, arith,
  length, take, length-take, take_all, length-append, inl, inr, leb, Bool-cases,
}
use mathlib.Core.List.{append-nil, append_assoc}
use aion_os.Consciousness.Text.{Text, codes}
use aion_os.Consciousness.Action.Results.{
  Act, record_result, max_action_results, results_text, results_or, action_get_results_str,
}

-- One call of `record_result` after the other.
pub record_all : {W : Type 0} → List Text → Act W → Act W
record_all [] a = a
record_all (f ∷ fs) a = record_all fs (record_result f a)

abbrev pub cut : List Text → List Text
cut [] = []
cut (f ∷ fs) = take 255 f ∷ cut fs

take_front : {A : Type 0} (xs ys : List A) (n : ℕ) → length xs ≡ n → take n (xs ++ ys) ≡ xs
take_front [] ys zero h = refl
take_front [] ys (suc n) h = absurd (omega arith)
take_front (x ∷ xs) ys zero h = absurd (omega arith)
take_front (x ∷ xs) ys (suc n) h = ap (λ t. x ∷ t) (take_front xs ys n (omega arith))

record_result-full :
    {W : Type 0} (f : Text) (a : Act W)
    → leb max_action_results (length a.results) ≡ true
    → record_result f a ≡ a
unfolding record_result
record_result-full f a full = rw full

record_result-room :
    {W : Type 0} (f : Text) (a : Act W)
    → leb max_action_results (length a.results) ≡ false
    → record_result f a ≡ record a { results = a.results ++ (take 255 f ∷ []) }
unfolding record_result
record_result-room f a room = rw room

-- Nothing else changes.
pub world-record_result : {W : Type 0} (f : Text) (a : Act W) → (record_result f a).world ≡ a.world
unfolding record_result
world-record_result f a = elim (Bool-cases (leb max_action_results (length a.results))) [
  | inl full ↦ rw full
  | inr room ↦ rw room
]

-- A run of recorded results keeps the first 32, each cut to 255 bytes, in their order, and drops the
-- rest.
pub results-record_all :
    {W : Type 0} (fs : List Text) (a : Act W)
    → length a.results ≤ max_action_results
    → (record_all fs a).results ≡ take max_action_results (a.results ++ cut fs)
unfolding record_all
results-record_all [] a h = rw append-nil (sym (take_all a.results max_action_results h))
results-record_all (f ∷ fs) a h = elim (Bool-cases (leb max_action_results (length a.results))) [
  | inl full ↦
      let e : length a.results ≡ max_action_results = ground arith in
      ap (λ r. (record_all fs r).results) (record_result-full f a full)
      ∙ results-record_all fs a h
      ∙ take_front a.results (cut fs) max_action_results e
      ∙ sym (take_front a.results (take 255 f ∷ cut fs) max_action_results e)
  | inr room ↦
      let next = record a { results = a.results ++ (take 255 f ∷ []) } in
      let small : length next.results ≤ max_action_results =
        ground (arith, length-append a.results (take 255 f ∷ [])) in
      ap (λ r. (record_all fs r).results) (record_result-room f a room)
      ∙ results-record_all fs next small
      ∙ ap (take max_action_results) (append_assoc a.results (take 255 f ∷ []) (cut fs))
]

-- The state that the source's constants allow: at most 32 results, none longer than the longest
-- format, 197 bytes.
abbrev pub Short : List Text → Type 0
Short [] = Unit
Short (r ∷ rs) = (length r ≤ 197) × Short rs

pub record IsBounded {W : Type 0} (a : Act W) : Type 0 where
  pub few : length a.results ≤ max_action_results
  pub short : Short a.results

Short-append : (rs : List Text) (r : Text) → Short rs → length r ≤ 197 → Short (rs ++ (r ∷ []))
Short-append [] r s h = (h, tt)
Short-append (x ∷ rs) r (hx, s) h = (hx, Short-append rs r s h)

pub record_result-IsBounded :
    {W : Type 0} (f : Text) (a : Act W)
    → IsBounded a
    → length f ≤ 197
    → IsBounded (record_result f a)
record_result-IsBounded f a b h = elim (Bool-cases (leb max_action_results (length a.results))) [
  | inl full ↦ rw (record_result-full f a full) b
  | inr room ↦ rw (record_result-room f a room) (record {
    few = ground (arith, length-append a.results (take 255 f ∷ []));
    short = Short-append a.results (take 255 f) b.short (omega (arith, length-take 255 f));
  })
]

length-results_text : (rs : List Text) → Short rs → length (results_text rs) ≤ 207 * length rs
unfolding results_text
length-results_text [] s = omega arith
length-results_text (r ∷ rs) (h, s) = omega (
  arith,
  length-append (codes "[RESULT] ") (r ++ (10 ∷ results_text rs)),
  length-append r (10 ∷ results_text rs),
  length-results_text rs s,
)

-- From such a state the text of the results, with its terminator, fits the 8192 bytes of `buf`, so
-- that no `snprintf` of `action_get_results_str` is given a negative room; and the results are
-- cleared.
pub action_get_results_str-fits :
    {W : Type 0} (buf : Text) (a : Act W)
    → IsBounded a
    → length buf < 8192
    → (length (action_get_results_str buf a).0 < max_action_results * 256)
      × ((action_get_results_str buf a).1.results ≡ [])
unfolding action_get_results_str
action_get_results_str-fits buf a b h = (text a.results b.few b.short, refl)
  where
    text : (rs : List Text) → length rs ≤ 32 → Short rs → length (results_or buf rs) < 8192
    text [] few s = h
    text (r ∷ rs) few s = omega (arith, length-results_text (r ∷ rs) s)
