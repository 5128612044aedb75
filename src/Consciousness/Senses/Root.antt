-- ===== src/Consciousness/Senses/Root.antt =====
-- The integer square root.
use aion_os.Prelude.{
  ℕ, zero, suc, ◌+◌, ◌-◌, ◌*◌, ◌/◌, ◌^◌, ◌≤◌, ◌<◌, ◌≡◌, ap, refl, false, ◌∙◌, arith, ltb, leb, ◌==◌,
  inl, inr, Bool-cases, leb→le, ltb→lt,
}
use native.Mathlib.Nat.{pow-suc, one-le-pow}
use aion_os.Consciousness.Senses.{shrink, root_loop, integer_sqrt}

-- The values of `bit`: the powers of 4, and 0 after the last.
abbrev bit_at : ℕ → ℕ
bit_at zero = 0
bit_at (suc k) = 2 ^ k * 2 ^ k

bit_at-step : (k : ℕ) → bit_at (suc k) / 4 ≡ bit_at k
bit_at-step zero = refl
bit_at-step (suc k) = let p = pow-suc 2 k in rw p (omega arith)

bit_at-pos : (k : ℕ) → 0 < bit_at (suc k)
bit_at-pos k = product (2 ^ k) (one-le-pow k 2 (omega arith))
  where
    product : (a : ℕ) → 1 ≤ a → 0 < a * a
    product zero h = absurd (omega arith)
    product (suc a) h = omega arith

-- `r` is the integer square root of `x`.
abbrev pub IsRoot : ℕ → ℕ → Type 0
IsRoot x r = (r * r ≤ x) × (x < (r + 1) * (r + 1))

-- `q` is the part of the root that is found, `n` the number of binary digits that are left.
root_loop-IsRoot :
    (n fuel x0 x q r : ℕ)
    → n ≤ fuel
    → r ≡ q * 2 ^ n
    → x + q * q ≡ x0
    → x0 < (q + 2 ^ n) * (q + 2 ^ n)
    → IsRoot x0 (root_loop fuel x r (bit_at n))
unfolding root_loop
root_loop-IsRoot zero zero x0 x q r h er ex small =
    let same : r ≡ q = omega (arith, er) in rw same (omega arith, omega (arith, small))
root_loop-IsRoot zero (suc fuel) x0 x q r h er ex small =
    let same : r ≡ q = omega (arith, er) in rw same (omega arith, omega (arith, small))
root_loop-IsRoot (suc k) zero x0 x q r h er ex small = absurd (omega arith)
root_loop-IsRoot (suc k) (suc fuel) x0 x q r h er ex small =
    let p = 2 ^ k in
    let power : 2 ^ suc k ≡ p * 2 = pow-suc 2 k in
    let twice : r ≡ q * p * 2 = er ∙ ap (λ t. q * t) power ∙ omega arith in
    let near : x0 < (q + p * 2) * (q + p * 2) = rw power at small in
    let more : (bit_at (suc k) == 0) ≡ false = ground (arith, bit_at-pos k) in
    rw more (elim (Bool-cases (leb (r + bit_at (suc k)) x)) [
      | inl fits ↦
          let le = leb→le _ _ fits in
          rw fits (
            rw (bit_at-step k) (
              root_loop-IsRoot k fuel x0 (x - (r + p * p)) (q + p) (r / 2 + p * p) (omega arith)
                (omega (arith, twice)) (omega (arith, twice, le, ex)) (omega (arith, near))))
      | inr big ↦
          let lt : x < r + p * p = ground arith in
          rw big (
            rw (bit_at-step k) (
              root_loop-IsRoot k fuel x0 x q (r / 2) (omega arith) (omega (arith, twice)) ex
                (omega (arith, twice, lt, ex))))
    ])

-- The largest power of 4 that is not above `x`, or 0.
shrink_lem :
    (n fuel x : ℕ)
    → n ≤ fuel
    → x < 2 ^ n * 2 ^ n
    → (m : ℕ) × (m ≤ n) × (shrink fuel x (bit_at n) ≡ bit_at m) × (x < 2 ^ m * 2 ^ m)
unfolding shrink
shrink_lem zero zero x h small = (0, omega arith, refl, small)
shrink_lem zero (suc fuel) x h small = (0, omega arith, ground arith, small)
shrink_lem (suc k) zero x h small = absurd (omega arith)
shrink_lem (suc k) (suc fuel) x h small = elim (Bool-cases (ltb x (bit_at (suc k)))) [
  | inl above ↦
      let (m, le, eq, lt) = shrink_lem k fuel x (omega arith) (ltb→lt _ _ above) in
      rw above (rw (bit_at-step k) (m, omega arith, eq, lt))
  | inr fits ↦ rw fits (suc k, omega arith, refl, small)
]

-- The loops compute the integer square root of every number below 2 ^ 32.
pub integer_sqrt-IsRoot : (x : ℕ) → x < 2 ^ 32 → IsRoot x (integer_sqrt x)
unfolding integer_sqrt
integer_sqrt-IsRoot x small =
    let (m, le, eq, lt) = shrink_lem 16 16 x (omega arith) (omega arith) in
    rw eq
      (root_loop-IsRoot m 16 x x 0 0 (omega arith) (omega arith) (omega arith) (omega (arith, lt)))
