-- ===== src/Kernel/Drivers/Serial/Digits.antt =====
-- `print_uint` against the value that its digits stand for.
use native.Mathlib.Nat.{pow-suc, div-mul-le_self, mod-eq-sub-div-mul, lt-div-mul-add}
use mathlib.Core.List.{append_assoc, append-nil}
use aion_os.Prelude.{
  ℕ, zero, suc, ◌+◌, ◌-◌, ◌*◌, ◌/◌, ◌%◌, ◌^◌, ◌≤◌, ◌<◌, ◌≡◌, ◌≢◌, refl, ap, sym, ◌∙◌, Option, some,
  inl, inr, arith, List, [], ◌∷◌, ◌++◌, ltb, ◌==◌, if◌then◌else◌, Bool-cases, ==_iff,
}
use aion_os.Kernel.Drivers.Serial.{digit_char, fill_digits, print_uint}

-- The value of a digit, and of a numeral read from the left.
unfoldable pub char_value : ℕ → ℕ
char_value c = if ltb c 58 then c - 48 else c - 87

unfoldable pub number_of : ℕ → ℕ → List ℕ → ℕ
number_of base acc [] = acc
number_of base acc (c ∷ s) = number_of base (acc * base + char_value c) s

number_of-snoc :
    (base acc : ℕ) (s : List ℕ) (c : ℕ)
    → number_of base acc (s ++ c ∷ []) ≡ number_of base acc s * base + char_value c
unfolding number_of
number_of-snoc base acc [] c = refl
number_of-snoc base acc (x ∷ s) c = number_of-snoc base (acc * base + char_value x) s c

digit_value : (n : ℕ) → n < 16 → char_value (digit_char n) ≡ n
unfolding char_value digit_char
digit_value n h = ground arith

-- A numeral that does not start with a zero.
abbrev pub IsNumeral : List ℕ → Type 0
IsNumeral [] = ⊥
IsNumeral (c ∷ s) = c ≢ b'0'

IsNumeral-append : (s t : List ℕ) → IsNumeral s → IsNumeral (s ++ t)
IsNumeral-append [] t h = absurd h
IsNumeral-append (c ∷ s) t h = h

-- What the loop writes in front of `buf`.
pub record Written (base v : ℕ) (buf : List ℕ) (res : Option (List ℕ)) : Type 0 where
  pub digits : List ℕ
  pub result : res ≡ some (digits ++ buf)
  pub value : number_of base 0 digits ≡ v
  pub empty : v ≡ 0 → digits ≡ []
  pub lead : 0 < v → IsNumeral digits

half_bound : (v base : ℕ) → 2 ≤ base → v / base * 2 ≤ v / base * base
half_bound v base h = grind arith

digit_small : (v base : ℕ) → 2 ≤ base → v % base < base
digit_small v base h = omega (
  arith,
  mod-eq-sub-div-mul v base,
  div-mul-le_self v base,
  lt-div-mul-add {a = v} {b = base} (omega arith),
)

nonzero_digit : (n : ℕ) → 0 < n → n < 16 → digit_char n ≢ b'0'
unfolding digit_char
nonzero_digit n h k = λ e. ground arith

leading :
    (v base : ℕ) (s : List ℕ)
    → v % base < base
    → base ≤ 16
    → 0 < v
    → (v / base ≡ 0 → s ≡ [])
    → (0 < v / base → IsNumeral s)
    → IsNumeral (s ++ digit_char (v % base) ∷ [])
leading v base s low hi p empty lead = elim (Bool-cases (v / base == 0)) [
  | inl none_left ↦
      let e = (==_iff (v / base) 0).0 none_left in
      rw (empty e) (
        nonzero_digit (v % base)
          (omega (arith, mod-eq-sub-div-mul v base, ap (λ (t : ℕ). t * base) e)) (omega arith))
  | inr more ↦ IsNumeral-append s (digit_char (v % base) ∷ []) (lead (ground arith))
]

fill_digits-Written :
    (n v base : ℕ) (buf : List ℕ)
    → 2 ≤ base
    → base ≤ 16
    → v < 2 ^ n
    → Written base v buf (fill_digits n v base buf)
unfolding fill_digits number_of
fill_digits-Written zero v base buf lo hi small = record {
  digits = [];
  result = ground arith;
  value = omega arith;
  empty = λ e. refl;
  lead = λ p. absurd (omega arith);
}
fill_digits-Written (suc n) v base buf lo hi small = elim (Bool-cases (v == 0)) [
  | inl done ↦
      rw (done, fill_digits)
        (record {
          digits = [];
          result = refl;
          value = ground arith;
          empty = λ e. refl;
          lead = λ p. absurd (ground arith);
        })
  | inr more ↦
      let c : ℕ = digit_char (v % base) in
      let low = digit_small v base lo in
      let whole : v / base * base + v % base ≡ v =
        omega (arith, mod-eq-sub-div-mul v base, div-mul-le_self v base) in
      let rest =
        fill_digits-Written n (v / base) base (c ∷ buf) lo hi
          (omega (arith, half_bound v base lo, div-mul-le_self v base, pow-suc 2 n)) in
      rw (more, fill_digits)
        (record {
          digits = rest.digits ++ c ∷ [];
          result = rest.result ∙ ap (λ s. some s) (sym (append_assoc rest.digits (c ∷ []) buf));
          value =
              number_of-snoc base 0 rest.digits c
              ∙ omega (
                arith,
                ap (λ (t : ℕ). t * base) rest.value,
                digit_value (v % base) (omega arith),
                whole,
              );
          empty = λ e. absurd (ground arith);
          lead = λ p. leading v base rest.digits low hi p rest.empty rest.lead;
        })
]

-- In every base from 2 to 16 a number of 64 bits is printed in full: the
-- buffer of 64 bytes is never overrun, the digits stand for the number, and the first one is no
-- zero unless the number is.
pub print_uint-number :
    (v base : ℕ)
    → 2 ≤ base
    → base ≤ 16
    → v < 2 ^ 64
    → (s : List ℕ) × (print_uint v base ≡ some s) × (number_of base 0 s ≡ v) × (0 < v → IsNumeral s)
unfolding print_uint number_of char_value
print_uint-number v base lo hi small = elim (Bool-cases (v == 0)) [
  | inl none_left ↦ (b'0' ∷ [], rw none_left, ground arith, λ p. absurd (ground arith))
  | inr more ↦
      let w = fill_digits-Written 64 v base [] lo hi small in
      (
        w.digits ++ [],
        rw more w.result,
        ap (number_of base 0) (append-nil w.digits) ∙ w.value,
        λ p. IsNumeral-append w.digits [] (w.lead p),
      )
]
