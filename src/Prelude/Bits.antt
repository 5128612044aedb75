-- ===== src/Prelude/Bits.antt =====
-- `|` of fields that do not overlap and `&` with a mask, as arithmetic.
use Prim.Native.Nat.{
  ℕ, zero, suc, ◌+◌, ◌-◌, ◌*◌, ◌/◌, ◌%◌, ◌^◌, ◌≤◌, ◌<◌, min, max, bit_and, bit_or, digits,
  bit_and-bitwise, bit_or-bitwise,
}
use mathlib.Core.Path.{◌≡◌, refl, sym, ap, ap₂, ◌∙◌}
use native.Mathlib.Nat.{
  pow-suc, one-le-pow, mod-eq_of_lt, div-div-eq-div-mul, mod-eq-sub-div-mul, div-mul-le_self,
  div-one, mod-one,
}
use native.Mathlib.Omega.{arith}

-- The fuel of the library's recursion on digits does not matter once it is enough.
module _ (z : ℕ → ℕ) (f : ℕ → ℕ → ℕ) where
  enough_fuel : (k l a b : ℕ) → a ≤ k → a ≤ l → digits z f k a b ≡ digits z f l a b
  enough_fuel k l zero b hk hl = out_of_digits k ∙ sym (out_of_digits l)
    where
      out_of_digits : (n : ℕ) → digits z f n 0 b ≡ z b
      out_of_digits zero = refl
      out_of_digits (suc n) = refl
  enough_fuel zero l (suc a) b hk hl = absurd (omega arith)
  enough_fuel (suc k) zero (suc a) b hk hl = absurd (omega arith)
  enough_fuel (suc k) (suc l) (suc a) b hk hl =
      ap (λ r. r * 2 + f (suc a % 2) (b % 2))
        (enough_fuel k l (suc a / 2) (b / 2) (omega arith) (omega arith))

  last_digit :
      (a b : ℕ)
      → digits z f (suc a) (suc a) b
        ≡ digits z f (suc a / 2) (suc a / 2) (b / 2) * 2 + f (suc a % 2) (b % 2)
  last_digit a b =
      ap (λ r. r * 2 + f (suc a % 2) (b % 2))
        (enough_fuel a (suc a / 2) (suc a / 2) (b / 2) (omega arith) (omega arith))

-- The lowest digit of each, apart from the digits above it.
module _ (a b : ℕ) where
  or_lowest : bit_or a b ≡ max (a % 2) (b % 2) + 2 * bit_or (a / 2) (b / 2)
  or_lowest = elim a as (λ n. bit_or n b ≡ max (n % 2) (b % 2) + 2 * bit_or (n / 2) (b / 2)) [
    | zero ↦ simp bit_or-bitwise (omega arith)
    | suc n ↦ simp bit_or-bitwise (omega (arith, last_digit (λ y. y) max n b))
  ]

  and_lowest : bit_and a b ≡ min (a % 2) (b % 2) + 2 * bit_and (a / 2) (b / 2)
  and_lowest = elim a as (λ n. bit_and n b ≡ min (n % 2) (b % 2) + 2 * bit_and (n / 2) (b / 2)) [
    | zero ↦ simp bit_and-bitwise (omega arith)
    | suc n ↦ simp bit_and-bitwise (omega (arith, last_digit (λ y. 0) min n b))
  ]

with_zero : (bound a : ℕ) → a ≤ bound → (bit_or a 0 ≡ a) × (bit_and a 0 ≡ 0)
with_zero bound zero h = (refl, refl)
with_zero zero (suc a) h = absurd (omega arith)
with_zero (suc bound) (suc a) h =
    let half = with_zero bound (suc a / 2) (omega arith) in
    (omega (arith, or_lowest (suc a) 0, half.0), omega (arith, and_lowest (suc a) 0, half.1))

pub bit_or-zero : (a : ℕ) → bit_or a 0 ≡ a
bit_or-zero a = (with_zero a a (omega arith)).0

pub bit_and-zero : (a : ℕ) → bit_and a 0 ≡ 0
bit_and-zero a = (with_zero a a (omega arith)).1

double_shift : (q k : ℕ) → q * 2 ^ suc k ≡ 2 * (q * 2 ^ k)
double_shift q k = omega (arith, ap (λ (t : ℕ). q * t) (pow-suc 2 k))

-- `(q << k) | r`, where `r` fits into `k` bits.
pub or_fields : (k q r : ℕ) → r < 2 ^ k → bit_or (q * 2 ^ k) r ≡ q * 2 ^ k + r
or_fields zero q r h = ground (arith, bit_or-zero q)
or_fields (suc k) q r h = ground (
  arith,
  or_lowest (q * 2 ^ suc k) r,
  double_shift q k,
  pow-suc 2 k,
  or_fields k q (r / 2) (omega (arith, pow-suc 2 k)),
)

-- `&` with a mask of low ones, on a word in two fields.
low_field : (k q r : ℕ) → r < 2 ^ k → bit_and (q * 2 ^ k + r) (2 ^ k - 1) ≡ r
low_field zero q r h = rw bit_and-zero (omega arith)
low_field (suc k) q r h = ground (
  arith,
  and_lowest (q * 2 ^ suc k + r) (2 ^ suc k - 1),
  double_shift q k,
  pow-suc 2 k,
  one-le-pow k 2,
  low_field k q (r / 2) (omega (arith, pow-suc 2 k)),
)

-- `a & ((1 << k) - 1)`
pub and_low : (k a : ℕ) → bit_and a (2 ^ k - 1) ≡ a % 2 ^ k
and_low k a = ground (arith, one-le-pow k 2, low_field k (a / 2 ^ k) (a % 2 ^ k))

high_field :
    (j k q r : ℕ)
    → q < 2 ^ j
    → r < 2 ^ k
    → bit_and (q * 2 ^ k + r) ((2 ^ j - 1) * 2 ^ k) ≡ q * 2 ^ k
high_field j zero q r hq hr = ground (arith, and_low j q, mod-eq_of_lt hq)
high_field j (suc k) q r hq hr = ground (
  arith,
  and_lowest (q * 2 ^ suc k + r) ((2 ^ j - 1) * 2 ^ suc k),
  double_shift q k,
  double_shift (2 ^ j - 1) k,
  pow-suc 2 k,
  high_field j k q (r / 2) hq (omega (arith, pow-suc 2 k)),
)

-- `a & ~((1 << k) - 1)` in a word of `j + k` bits.
pub and_high : (j k a : ℕ) → a / 2 ^ k < 2 ^ j → bit_and a ((2 ^ j - 1) * 2 ^ k) ≡ a / 2 ^ k * 2 ^ k
and_high j k a h = ground (arith, one-le-pow k 2, high_field j k (a / 2 ^ k) (a % 2 ^ k) h)

shift_half : (a k : ℕ) → a / 2 ^ suc k ≡ a / 2 / 2 ^ k
shift_half a k = sym (div-div-eq-div-mul a 2 (2 ^ k) ∙ ap (λ t. a / t) (omega (arith, pow-suc 2 k)))

mod_half : (a k : ℕ) → a % 2 ^ suc k ≡ a % 2 + 2 * (a / 2 % 2 ^ k)
mod_half a k = omega (
  arith,
  mod-eq-sub-div-mul a (2 ^ suc k),
  mod-eq-sub-div-mul (a / 2) (2 ^ k),
  ap (λ (t : ℕ). t * 2 ^ suc k) (shift_half a k),
  double_shift (a / 2 / 2 ^ k) k,
  div-mul-le_self (a / 2) (2 ^ k),
)

module _ (a b : ℕ) where
  or_half : bit_or a b / 2 ≡ bit_or (a / 2) (b / 2)
  or_half = omega (arith, or_lowest a b)

  pub or_odd : bit_or a b % 2 ≡ max (a % 2) (b % 2)
  or_odd = omega (arith, or_lowest a b)

mod_then_half : (a k : ℕ) → a % 2 ^ suc k / 2 ≡ a / 2 % 2 ^ k
mod_then_half a k = omega (arith, mod_half a k)

-- `|` field by field.
pub or_div : (k a b : ℕ) → bit_or a b / 2 ^ k ≡ bit_or (a / 2 ^ k) (b / 2 ^ k)
or_div zero a b = simp div-one
or_div (suc k) a b =
    shift_half (bit_or a b) k
    ∙ ap (λ t. t / 2 ^ k) (or_half a b)
    ∙ or_div k (a / 2) (b / 2)
    ∙ ap₂ bit_or (sym (shift_half a k)) (sym (shift_half b k))

pub or_mod : (k a b : ℕ) → bit_or a b % 2 ^ k ≡ bit_or (a % 2 ^ k) (b % 2 ^ k)
or_mod zero a b = simp mod-one
or_mod (suc k) a b = omega (
  arith,
  mod_half (bit_or a b) k,
  ap (λ t. t % 2 ^ k) (or_half a b),
  or_odd a b,
  or_mod k (a / 2) (b / 2),
  or_lowest (a % 2 ^ suc k) (b % 2 ^ suc k),
  ap₂ bit_or (mod_then_half a k) (mod_then_half b k),
  mod_half a k,
  mod_half b k,
)
