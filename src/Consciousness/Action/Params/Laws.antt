-- ===== src/Consciousness/Action/Params/Laws.antt =====
-- What the two parameter parsers find in a token.
use aion_os.Prelude.{
  ℕ, ◌+◌, ◌-◌, ◌*◌, ◌^◌, ◌≤◌, ◌<◌, ◌≡◌, ◌≢◌, refl, ap, sym, ◌∙◌, true, false, none, some, List, [],
  ◌∷◌, ◌++◌, map, arith, leb, inl, inr, length, take, length-take, take_all, length-append,
  Bool-cases, Option-cases,
}
use native.Mathlib.Nat.{pow-suc, one-le-pow, mul-le-mul_left}
use aion_os.Consciousness.Text.{
  Text, codes, strip_prefix, find_after, split_at, find_after-first, Lacks, split_at-append,
}
use aion_os.Consciousness.Action.Params.{
  search_of, parse_param_str, is_digit, next_digit, digits_loop, parse_param_int,
}

-- `pat` does not begin inside `a` in the text `a` followed by `pat` and `r`.
abbrev pub FirstAt : Text → Text → Text → Type 0
FirstAt pat a r = (x y : Text) → a ≡ x ++ y → y ≢ [] → strip_prefix pat (y ++ (pat ++ r)) ≡ none

-- A value parsed into a buffer of `out_sz` bytes leaves room for its terminator.
pub length-parse_param_str :
    (token key : Text) (out_sz : ℕ) (v : Text)
    → 0 < out_sz
    → parse_param_str token key out_sz ≡ some v
    → length v < out_sz
unfolding parse_param_str
length-parse_param_str token key out_sz v pos h =
    elim (Option-cases (find_after (search_of key (codes "=\"")) token)) [
      | inl e ↦ cc
      | inr (p, e) ↦ elim (Option-cases (split_at b'"' p)) [
        | inl e' ↦ cc
        | inr ((u, w), e') ↦ ground (arith, length-take (out_sz - 1) u)
      ]
    ]

-- For `… key="value" …`, where nothing before it reads `key="`, the parser returns the value, cut to
-- the buffer.
pub parse_param_str-value :
    (a key v r : Text) (out_sz : ℕ)
    → length key ≤ 61
    → 0 < out_sz
    → Lacks b'"' v
    → FirstAt (key ++ codes "=\"") a (v ++ (b'"' ∷ r))
    → parse_param_str (a ++ ((key ++ codes "=\"") ++ (v ++ (b'"' ∷ r)))) key out_sz
      ≡ some (take (out_sz - 1) v)
unfolding parse_param_str
parse_param_str-value a key v r out_sz hk pos lacks first =
    let pat = key ++ codes "=\"" in
    let whole : search_of key (codes "=\"") ≡ pat =
      take_all pat 63 (omega (arith, length-append key (codes "=\""))) in
    rw (whole, parse_param_str)
      (rw (find_after-first pat a (v ++ (b'"' ∷ r)) first, parse_param_str)
        (rw (split_at-append b'"' v r lacks, parse_param_str)
          (elim (Bool-cases (leb out_sz (length v))) [
            | inl long ↦ rw long
            | inr short ↦ rw short (ap some (sym (take_all v (out_sz - 1) (ground arith))))
          ])))

-- The number that decimal digits stand for, most significant first.
abbrev pub value_of : List ℕ → ℕ
value_of [] = 0
value_of (d ∷ ds) = d * 10 ^ length ds + value_of ds

abbrev pub Digits : List ℕ → Type 0
Digits [] = Unit
Digits (d ∷ ds) = (d < 10) × Digits ds

-- The text stops the digit loop.
abbrev pub Stops : Text → Type 0
Stops [] = Unit
Stops (c ∷ s) = is_digit c ≡ false

digits_loop-value :
    (signed_overflow : ℕ → ℕ → ℕ) (out : ℕ) (ds : List ℕ) (r : Text)
    → Digits ds
    → Stops r
    → out * 10 ^ length ds + value_of ds < 2 ^ 63
    → digits_loop signed_overflow out (map (λ d. d + b'0') ds ++ r)
      ≡ out * 10 ^ length ds + value_of ds
unfolding digits_loop next_digit
digits_loop-value over out [] [] hd hs h = omega arith
digits_loop-value over out [] (c ∷ r) hd hs h = rw hs (omega arith)
digits_loop-value over out (d ∷ ds) r (hd, hds) hs h =
    let digit : is_digit (d + b'0') ≡ true = ground arith in
    let power : 10 ^ length (d ∷ ds) ≡ 10 ^ length ds * 10 = pow-suc 10 (length ds) in
    let scaled : out * 10 ^ length (d ∷ ds) ≡ out * (10 ^ length ds * 10) =
      ap (λ t. out * t) power in
    let sum : (out * 10 + d) * 10 ^ length ds + value_of ds < 2 ^ 63 = omega (arith, h, scaled) in
    let positive : 1 ≤ 10 ^ length ds = omega (arith, one-le-pow (length ds) 10 (omega arith)) in
    let small : (out * 10 + d) * 1 ≤ (out * 10 + d) * 10 ^ length ds =
      mul-le-mul_left (out * 10 + d) positive in
    let next : next_digit over out (d + b'0' - b'0') ≡ out * 10 + d = ground (arith, sum, small) in
    rw digit (
      rw (next, digits_loop)
        (digits_loop-value over (out * 10 + d) ds r hds hs sum ∙ omega (arith, scaled)))

-- A decimal number below 2 ^ 63, followed by no other digit, is read back behind a `key=` of at most
-- 62 bytes for the key, where nothing before it reads `key=`.
pub parse_param_int-value :
    (signed_overflow : ℕ → ℕ → ℕ) (a key : Text) (ds : List ℕ) (r : Text)
    → length key ≤ 62
    → Digits ds
    → Stops r
    → value_of ds < 2 ^ 63
    → FirstAt (key ++ codes "=") a (map (λ d. d + b'0') ds ++ r)
    → parse_param_int signed_overflow
        (a ++ ((key ++ codes "=") ++ (map (λ d. d + b'0') ds ++ r)))
        key
      ≡ some (value_of ds)
unfolding parse_param_int
parse_param_int-value over a key ds r hk hd hs small first =
    let text = map (λ d. d + b'0') ds ++ r in
    let whole : search_of key (codes "=") ≡ key ++ codes "=" =
      take_all (key ++ codes "=") 63 (omega (arith, length-append key (codes "="))) in
    rw (whole, parse_param_int)
      (rw (find_after-first (key ++ codes "=") a text first, parse_param_int)
        (ap some (digits_loop-value over 0 ds r hd hs (omega (arith, small)) ∙ omega arith)))

-- A number that is written in hexadecimal is read as 0.
pub parse_param_int-hexadecimal :
    (signed_overflow : ℕ → ℕ → ℕ) (a key r : Text)
    → length key ≤ 62
    → FirstAt (key ++ codes "=") a (codes "0x" ++ r)
    → parse_param_int signed_overflow (a ++ ((key ++ codes "=") ++ (codes "0x" ++ r))) key ≡ some 0
parse_param_int-hexadecimal over a key r hk first =
    parse_param_int-value over a key (0 ∷ []) (b'x' ∷ r) hk (omega arith, tt) refl (omega arith)
      first
