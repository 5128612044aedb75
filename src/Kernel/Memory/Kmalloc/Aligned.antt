-- ===== src/Kernel/Memory/Kmalloc/Aligned.antt =====
-- `kmalloc_aligned`, for an alignment that is a power of two.
use aion_os.Prelude.{
  ℕ, zero, suc, ◌+◌, ◌-◌, ◌*◌, ◌/◌, ◌%◌, ◌^◌, ◌≤◌, ◌<◌, ◌≡◌, ap, arith, ◌≢◌, inl, inr, Bool-cases,
  ltb, ltb→ge, ltb→lt, ◌⊎◌, refl,
}
use aion_os.Prelude.Bits.{and_high}
use aion_os.Prelude.Words.{add64, sub64}
use aion_os.Kernel.Memory.Kmalloc.Blocks.{IsHeap}
use aion_os.Kernel.Memory.Kmalloc.{Heap, round16, not64, align_up, kmalloc, kmalloc_aligned}
use native.Mathlib.Nat.{pow-suc, one-le-pow, div-add-mod', mul-mod_left, mod-lt}

pow_split : (j k n : ℕ) → j + k ≡ n → 2 ^ j * 2 ^ k ≡ 2 ^ n
pow_split j zero n e = rw (← e) (ground arith)
pow_split j (suc k) zero e = absurd (omega arith)
pow_split j (suc k) (suc n) e = omega (
  arith,
  pow-suc 2 k,
  pow-suc 2 n,
  pow_split j k n (omega arith),
  ap (λ (t : ℕ). 2 ^ j * t) (pow-suc 2 k),
)

-- Rounding up to a multiple of `a`.
round_up : (p a : ℕ) → 0 < a → (p ≤ (p + a - 1) / a * a) × ((p + a - 1) / a * a < p + a)
round_up p a h = omega (arith, div-add-mod' (p + a - 1) a, mod-lt (p + a - 1) h)

pos_pow : (k : ℕ) → 1 ≤ 2 ^ k
pos_pow k = one-le-pow k 2 (omega arith)

less_one : (a b : ℕ) → 1 ≤ a → (a - 1) * b + b ≡ a * b
less_one zero b h = absurd (omega arith)
less_one (suc a) b h = let e : suc a - 1 ≡ a = omega arith in rw e (omega arith)

div-lt : (x a b : ℕ) → 0 < b → x < a * b → x / b < a
div-lt x a b pos h = grind (arith, div-add-mod' x b)

mask_of : (j k : ℕ) → j + k ≡ 64 → not64 (sub64 (2 ^ k) 1) ≡ (2 ^ j - 1) * 2 ^ k
mask_of j k e = omega (arith, pow_split j k 64 e, less_one (2 ^ j) (2 ^ k) (pos_pow j), pos_pow k)

-- For a power of two `align_up` rounds up to the least multiple at or above the pointer.
pub align_up-multiple :
    (p k : ℕ)
    → k < 64
    → p + 2 ^ k ≤ 2 ^ 64
    → (align_up p (2 ^ k) % 2 ^ k ≡ 0) × (p ≤ align_up p (2 ^ k)) × (align_up p (2 ^ k) < p + 2 ^ k)
unfolding align_up
align_up-multiple p k hk h =
    let x = sub64 (add64 p (2 ^ k)) 1 in
    let x_lem : x ≡ p + 2 ^ k - 1 = omega (arith, pos_pow k) in
    let in_word : x / 2 ^ k < 2 ^ (64 - k) =
      div-lt x (2 ^ (64 - k)) (2 ^ k) (pos_pow k)
        (omega (arith, pow_split (64 - k) k 64 (omega arith))) in
    let up = round_up p (2 ^ k) (pos_pow k) in
    rw (mask_of (64 - k) k (omega arith), and_high (64 - k) k x in_word, x_lem)
      (mul-mod_left _ _, up.0, up.1)

small_pow : (k : ℕ) → k ≤ 31 → 2 ^ k ≤ 2 ^ 31
small_pow k h =
    omega
      (arith, pow_split (31 - k) k 31 (omega arith), grow (2 ^ (31 - k)) (2 ^ k) (pos_pow (31 - k)))
  where
    grow : (a b : ℕ) → 1 ≤ a → b ≤ a * b
    grow a b h = grind arith

-- A request with an alignment that is a power of two is refused exactly if the rounded size does not
-- fit behind the next multiple; otherwise the result is not null, is a multiple of the alignment, and
-- its block lies in the free part.
pub kmalloc_aligned-multiple :
    {h : Heap} (size k : ℕ)
    → IsHeap h
    → size < 2 ^ 31
    → k ≤ 31
    → let p = (kmalloc_aligned size (2 ^ k) h).0 in
      ((p ≡ 0) × (h.heap_end < align_up h.heap_ptr (2 ^ k) + (size + 15) / 16 * 16))
      ⊎ ((p ≢ 0) × (p % 2 ^ k ≡ 0) × (h.heap_ptr ≤ p) × (p + size ≤ h.heap_end))
unfolding kmalloc_aligned kmalloc
kmalloc_aligned-multiple {h} size k v limit hk =
    let up =
      align_up-multiple h.heap_ptr k (omega arith)
        (omega (arith, v.order, v.room, small_pow k hk)) in
    let p = align_up h.heap_ptr (2 ^ k) in
    let small = small_pow k hk in
    elim (Bool-cases (ltb h.heap_end (add64 p (round16 size)))) [
      | inl full ↦
          rw full (
            inl (refl, omega (arith, ltb→lt _ _ full, up.1, up.2, small, v.order, v.room, v.start)))
      | inr fits ↦ rw fits (
          inr (
            omega (arith, up.1, up.2, small, v.order, v.room, v.start),
            up.0,
            up.1,
            omega (arith, ltb→ge _ _ fits, up.1, up.2, small, v.order, v.room, v.start),
          ))
    ]
