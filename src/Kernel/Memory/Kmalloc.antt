-- ===== src/Kernel/Memory/Kmalloc.antt =====
-- The bump allocator of kernel/memory/memory.c: `kmalloc_init`, `kmalloc`, `kmalloc_aligned` and
-- `kfree`. A pointer is its address, and `NULL` is 0.
pub mod Blocks
pub mod Aligned
pub mod Init
mod Tests
use aion_os.Prelude.{ℕ, ◌+◌, ◌-◌, ◌*◌, ◌/◌, ◌^◌, List, [], ◌∷◌, ltb, ◌==◌, if◌then◌else◌, bit_and}
use aion_os.Prelude.Words.{add64, sub64}
use aion_os.Kernel.Memory.Bitmap.{page_size}
use aion_os.Kernel.Memory.Pmm.{Pmm, pmm_alloc_contiguous}

abbrev pub virt_phys_map_base : ℕ
virt_phys_map_base = 0xffff_0000_0000_0000

abbrev pub heap_initial_size : ℕ
heap_initial_size = 16 * 1024 * 1024

-- The static variables `heap_ptr` and `heap_end`.
pub record Heap : Type 0 where
  pub heap_ptr : ℕ
  pub heap_end : ℕ

-- `kmalloc_init` from the result of the allocation on.
unfoldable pub heap_at : ℕ × Pmm → Heap → Pmm × Heap
heap_at (phys, pmm) h = if phys == 0 then (pmm, h) else (
  pmm,
  record {
    heap_ptr = add64 phys virt_phys_map_base;
    heap_end = add64 (add64 phys virt_phys_map_base) heap_initial_size;
  },
)

unfoldable pub kmalloc_init : Pmm → Heap → Pmm × Heap
unfolding heap_at
kmalloc_init pmm h = heap_at (pmm_alloc_contiguous (heap_initial_size / page_size) pmm) h

-- `(size + 15) & ~15ULL`
abbrev pub round16 : ℕ → ℕ
round16 size = add64 size 15 / 16 * 16

pub kmalloc : ℕ → Heap → ℕ × Heap
kmalloc size h =
    if ltb h.heap_end (add64 h.heap_ptr (round16 size))
    then (0, h)
    else (h.heap_ptr, record h { heap_ptr = add64 h.heap_ptr (round16 size) })

-- `~x` on a `uint64_t`
abbrev pub not64 : ℕ → ℕ
not64 x = 2 ^ 64 - 1 - x

-- `(p + align - 1) & ~(align - 1)`
pub align_up : ℕ → ℕ → ℕ
align_up p align = bit_and (sub64 (add64 p align) 1) (not64 (sub64 align 1))

pub kmalloc_aligned : ℕ → ℕ → Heap → ℕ × Heap
kmalloc_aligned size align h = kmalloc size (record h { heap_ptr = align_up h.heap_ptr align })

pub kfree : ℕ → Heap → Heap
kfree ptr h = h

-- A run of requests, with the pointers that they return.
pub kmalloc_all : List ℕ → Heap → List ℕ × Heap
kmalloc_all [] h = ([], h)
kmalloc_all (size ∷ sizes) h =
    let (p, h') = kmalloc size h in let (ps, h'') = kmalloc_all sizes h' in (p ∷ ps, h'')
