-- ===== src/Prelude/Bytes.antt =====
-- Bits of a byte: `|` and `&` with a one-bit mask, decided by evaluation over all bytes.
use aion_os.Prelude.Tests.{ltb, ltb→lt, ◌==◌, if◌then◌else◌}
use Prim.Native.Nat.{ℕ, zero, suc, ◌-◌, ◌/◌, ◌%◌, ◌^◌, ◌<◌, bit_and, bit_or}
use mathlib.Core.Path.{◌≡◌, refl}
use mathlib.Core.Bool.{Bool, true, false, ◌&&◌}
use native.Mathlib.Omega.{arith}

-- Every number below the bound passes the test.
unfoldable pub each_below : ℕ → (ℕ → Bool) → Bool
each_below zero test = true
each_below (suc bound) test = if test bound then each_below bound test else false

pub each_below-at :
    (test : ℕ → Bool) (bound : ℕ)
    → each_below bound test ≡ true
    → (x : ℕ) → x < bound
    → test x ≡ true
unfolding each_below
each_below-at test zero passed x h = absurd (omega arith)
each_below-at test (suc bound) passed x h =
    let rest : each_below bound test ≡ true = ground arith in
    ground (arith, each_below-at test bound rest x)

-- `(b >> k) & 1`, as a test.
abbrev pub bit : ℕ → ℕ → Bool
bit b k = b / 2 ^ k % 2 == 1

-- `b | (1 << k)` and `b & ~(1 << k)` on a `uint8_t`.
unfoldable pub set_bit : ℕ → ℕ → ℕ
set_bit b k = bit_or b (2 ^ k)

unfoldable pub clear_bit : ℕ → ℕ → ℕ
clear_bit b k = bit_and b (255 - 2 ^ k)

abbrev same : Bool → Bool → Bool
same true c = c
same false true = false
same false false = true

same_sound : (b c : Bool) → same b c ≡ true → b ≡ c
same_sound b c h = ground arith

set_bit_table :
    each_below 256 (λ b. each_below 8 (λ k.
      ltb (set_bit b k) 256
      && each_below 8 (λ j. same (bit (set_bit b k) j) (if k == j then true else bit b j))))
    ≡ true
unfolding each_below set_bit
set_bit_table = refl

clear_bit_table :
    each_below 256 (λ b. each_below 8 (λ k.
      ltb (clear_bit b k) 256
      && each_below 8 (λ j. same (bit (clear_bit b k) j) (if k == j then false else bit b j))))
    ≡ true
unfolding each_below clear_bit
clear_bit_table = refl

and_left : (b c : Bool) → (b && c) ≡ true → b ≡ true
and_left b c h = ground arith

and_right : (b c : Bool) → (b && c) ≡ true → c ≡ true
and_right b c h = ground arith

module _ (b k : ℕ) (hb : b < 256) (hk : k < 8) where
  pub set_bit-lt : set_bit b k < 256
  set_bit-lt =
      ltb→lt _ _ (and_left _ _ (each_below-at _ 8 (each_below-at _ 256 set_bit_table b hb) k hk))

  pub clear_bit-lt : clear_bit b k < 256
  clear_bit-lt =
      ltb→lt _ _ (and_left _ _ (each_below-at _ 8 (each_below-at _ 256 clear_bit_table b hb) k hk))

  pub bit-set_bit : (j : ℕ) → j < 8 → bit (set_bit b k) j ≡ (if k == j then true else bit b j)
  bit-set_bit j hj = same_sound _ _ (
      each_below-at _ 8
        (and_right _ _ (each_below-at _ 8 (each_below-at _ 256 set_bit_table b hb) k hk)) j hj)

  pub bit-clear_bit : (j : ℕ) → j < 8 → bit (clear_bit b k) j ≡ (if k == j then false else bit b j)
  bit-clear_bit j hj = same_sound _ _ (
      each_below-at _ 8
        (and_right _ _ (each_below-at _ 8 (each_below-at _ 256 clear_bit_table b hb) k hk)) j hj)
