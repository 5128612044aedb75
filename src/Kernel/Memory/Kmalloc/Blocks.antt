-- ===== src/Kernel/Memory/Kmalloc/Blocks.antt =====
-- The blocks that `kmalloc` hands out lie in the heap, are aligned and do not overlap.
use aion_os.Prelude.{
  ℕ, ◌+◌, ◌-◌, ◌*◌, ◌/◌, ◌%◌, ◌^◌, ◌≤◌, ◌<◌, ◌≡◌, ◌≢◌, ◌⊎◌, refl, inl, inr, List, [], ◌∷◌, arith,
  ltb, ltb_ge, ltb→lt, ltb→ge, Bool-cases,
}
use aion_os.Prelude.Words.{add64}
use aion_os.Kernel.Memory.Kmalloc.{Heap, round16, kmalloc, kmalloc_all}

-- The heap's end is far enough from the end of the address space for a request below 2 GB not to
-- wrap, and its free part begins at a multiple of 16.
pub record IsHeap (h : Heap) : Type 0 where
  pub start : 0 < h.heap_ptr
  pub order : h.heap_ptr ≤ h.heap_end
  pub room : h.heap_end + 2 ^ 32 ≤ 2 ^ 64
  pub aligned : h.heap_ptr % 16 ≡ 0

-- A block of `size` bytes at `p`, below `top`.
pub record Block (bottom p size top : ℕ) : Type 0 where
  pub above : bottom ≤ p
  pub below : p + size ≤ top
  pub multiple : p % 16 ≡ 0
  pub tight : top < p + size + 16

-- A request is refused exactly if the rounded size does not fit, and changes nothing then;
-- otherwise it returns a 16-byte aligned block of the free part, and the free part begins less than
-- 16 bytes behind the block.
pub kmalloc-Block :
    {h : Heap} (size : ℕ)
    → IsHeap h
    → size < 2 ^ 31
    → ((kmalloc size h ≡ (0, h)) × (h.heap_end < h.heap_ptr + (size + 15) / 16 * 16))
      ⊎ (((kmalloc size h).0 ≢ 0)
          × Block h.heap_ptr (kmalloc size h).0 size (kmalloc size h).1.heap_ptr
          × IsHeap (kmalloc size h).1
          × ((kmalloc size h).1.heap_end ≡ h.heap_end))
unfolding kmalloc
kmalloc-Block {h} size v small =
    elim (Bool-cases (ltb h.heap_end (add64 h.heap_ptr (round16 size)))) [
      | inl full ↦ rw full (inl (refl, omega (arith, ltb→lt _ _ full, v.room, v.order)))
      | inr fits ↦
          let le = ltb→ge h.heap_end (add64 h.heap_ptr (round16 size)) fits in
          rw fits (inr (omega arith, omega (arith, le, v.room), omega (arith, le, v.room), refl))
    ]

-- What a request takes from the free part.
abbrev pub rounded : ℕ → ℕ
rounded n = (n + 15) / 16 * 16

-- How the blocks lie in a free part that ends at `top`: a request that does not fit behind the blocks
-- before it is refused, every other block begins where the free part did, at a multiple of 16, and
-- ends before the free part that is left.
pub Laid : ℕ → ℕ → List ℕ → List ℕ → Type 0
Laid top bottom [] [] = Unit
Laid top bottom [] (p ∷ ps) = ⊥
Laid top bottom (n ∷ ns) [] = ⊥
Laid top bottom (n ∷ ns) (p ∷ ps) =
    ((p ≡ 0) × (top < bottom + rounded n) × Laid top bottom ns ps)
    ⊎ ((p ≡ bottom)
        × (p % 16 ≡ 0)
        × (p + n ≤ p + rounded n)
        × (p + rounded n ≤ top)
        × Laid top (p + rounded n) ns ps)

abbrev pub Small : List ℕ → Type 0
Small [] = Unit
Small (n ∷ ns) = (n < 2 ^ 31) × Small ns

pub taken :
    {h : Heap} (n : ℕ)
    → IsHeap h
    → n < 2 ^ 31
    → h.heap_ptr + rounded n ≤ h.heap_end
    → kmalloc n h ≡ (h.heap_ptr, record h { heap_ptr = h.heap_ptr + rounded n })
unfolding kmalloc
taken {h} n v small fits =
    let next : add64 h.heap_ptr (round16 n) ≡ h.heap_ptr + rounded n = omega (arith, v.room) in
    rw (next, ltb_ge h.heap_end (h.heap_ptr + rounded n) fits)

-- Whatever requests below 2 GB come, the blocks are 16-byte aligned, do not overlap and lie in the
-- heap's free part; and a request is refused exactly if it does not fit behind the blocks before it.
pub kmalloc_all-Laid :
    (sizes : List ℕ) {h : Heap}
    → IsHeap h
    → Small sizes
    → Laid h.heap_end h.heap_ptr sizes (kmalloc_all sizes h).0
unfolding kmalloc_all Laid
kmalloc_all-Laid [] v small = tt
kmalloc_all-Laid (n ∷ ns) {h} v (small, rest) = elim (kmalloc-Block n v small) [
  | inl (e, full) ↦ rw e (inl (refl, full, kmalloc_all-Laid ns v rest))
  | inr (ne, b, w, same) ↦
      let fits : h.heap_ptr + rounded n ≤ h.heap_end =
        omega (arith, w.aligned, w.order, b.below, b.above, v.aligned, same) in
      let next : IsHeap (record h { heap_ptr = h.heap_ptr + rounded n }) = omega arith in
      rw (taken n v small fits)
        (inr (refl, v.aligned, omega arith, fits, kmalloc_all-Laid ns next rest))
]

-- A request within 15 bytes of the largest `uint64_t` rounds to 0: it is granted whenever the heap
-- is well formed, and takes no room.
pub kmalloc-wraps :
    {h : Heap} (size : ℕ)
    → IsHeap h
    → 2 ^ 64 - 16 < size
    → size < 2 ^ 64
    → kmalloc size h ≡ (h.heap_ptr, h)
unfolding kmalloc
kmalloc-wraps {h} size v lo hi =
    let none_taken : add64 h.heap_ptr (round16 size) ≡ h.heap_ptr = omega arith in
    rw (none_taken, ltb_ge h.heap_end h.heap_ptr v.order)
