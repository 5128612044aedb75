-- ===== src/Kernel/Memory/Pmm.antt =====
-- The physical memory manager of kernel/memory/memory.c: `pmm_init`, `pmm_alloc`,
-- `pmm_alloc_contiguous` and `pmm_free` over the frame bitmap and its two counters.
pub mod State
pub mod Count
pub mod Alloc
pub mod Contiguous
pub mod Release
pub mod Boot
pub mod Exact
pub mod Accounts
mod Tests
use aion_os.Prelude.{
  ℕ, zero, suc, ◌+◌, ◌-◌, ◌*◌, ◌/◌, ◌%◌, ◌^◌, Bool, true, false, ◌||◌, Option, none, some, ltb,
  ◌==◌, if◌then◌else◌,
}
use aion_os.Prelude.Words.{add64, sub64, mul64}
use aion_os.Kernel.Memory.Bitmap.{
  page_size, max_pages, bitmap_size, Bitmap, bitmap_set_free, bitmap_set_used, bitmap_is_free,
}

-- `EfiMemoryDescriptor`, without the fields that the kernel does not read.
pub record EfiMemoryDescriptor : Type 0 where
  pub type : ℕ
  pub phys_start : ℕ
  pub num_pages : ℕ

-- The static variables `phys_bitmap`, `phys_total_pages` and `phys_free_pages`.
pub record Pmm : Type 0 where
  pub bitmap : Bitmap
  pub total_pages : ℕ
  pub free_pages : ℕ

-- Frames below 2 MB are never handed out.
abbrev pub first_frame : ℕ
first_frame = 512

-- EfiConventionalMemory, EfiBootServicesCode, EfiBootServicesData
unfoldable pub is_usable : EfiMemoryDescriptor → Bool
is_usable d = d.type == 7 || (d.type == 3 || d.type == 4)

unfoldable pub mark_page : ℕ → Pmm → Pmm
mark_page idx s =
    if ltb idx max_pages
    then record s {
      bitmap = bitmap_set_free s.bitmap idx;
      free_pages = add64 s.free_pages 1;
      total_pages = add64 s.total_pages 1;
    }
    else s

-- The inner loop of `pmm_init`, with the rounds left, from page `p` of a region on.
unfoldable pub mark_pages : ℕ → ℕ → ℕ → Pmm → Pmm
mark_pages zero start p s = s
mark_pages (suc n) start p s = mark_pages n start (p + 1) (mark_page (add64 start p) s)

unfoldable pub mark_region : EfiMemoryDescriptor → Pmm → Pmm
mark_region d s = if is_usable d then mark_pages d.num_pages (d.phys_start / page_size) 0 s else s

-- The outer loop. `memory` is the descriptor that lies at an address.
unfoldable pub mark_regions : ℕ → (ℕ → EfiMemoryDescriptor) → ℕ → ℕ → ℕ → Pmm → Pmm
mark_regions zero memory desc desc_size i s = s
mark_regions (suc n) memory desc desc_size i s =
    mark_regions n memory desc desc_size (i + 1)
      (mark_region (memory (add64 desc (mul64 i desc_size))) s)

-- `bitmap_set_used(i); phys_free_pages--;`
unfoldable pub take_page : ℕ → Pmm → Pmm
take_page i s = record s { bitmap = bitmap_set_used s.bitmap i; free_pages = sub64 s.free_pages 1 }

-- The same for the `n` frames from `i` on: the last loop of `pmm_init`, and that of
-- `pmm_alloc_contiguous`.
unfoldable pub take_pages : ℕ → ℕ → Pmm → Pmm
take_pages zero i s = s
take_pages (suc n) i s = take_pages n (i + 1) (take_page i s)

-- `none` is the fault of a division by `desc_size = 0`.
unfoldable pub pmm_init : (ℕ → EfiMemoryDescriptor) → ℕ → ℕ → ℕ → Pmm → Option Pmm
pmm_init memory mmap_addr mmap_size desc_size s =
    if desc_size == 0
    then none
    else some (
        take_pages first_frame 0 (
          mark_regions (mmap_size / desc_size) memory mmap_addr desc_size 0
            (record s { bitmap = λ i. 0 })))

-- The loop of `pmm_alloc`, with the rounds left, from frame `i` on.
alloc_scan : ℕ → ℕ → Pmm → ℕ × Pmm
alloc_scan zero i s = (0, s)
alloc_scan (suc n) i s = elim (bitmap_is_free s.bitmap i) [
  | true ↦ (mul64 i page_size, take_page i s)
  | false ↦ alloc_scan n (i + 1) s
]

-- The address of the frame, or 0.
pub pmm_alloc : Pmm → ℕ × Pmm
pmm_alloc s = alloc_scan (s.total_pages - first_frame) first_frame s

-- The loop of `pmm_alloc_contiguous`, with the rounds left, from frame `i` on.
run_scan : ℕ → ℕ → ℕ → ℕ → ℕ → Pmm → ℕ × Pmm
run_scan zero n i run_start run_len s = (0, s)
run_scan (suc k) n i run_start run_len s =
    let start = if run_len == 0 then i else run_start in
    elim (bitmap_is_free s.bitmap i) [
      | true ↦ elim (run_len + 1 == n) [
        | true ↦ (mul64 start page_size, take_pages n start s)
        | false ↦ run_scan k n (i + 1) start (run_len + 1) s
      ]
      | false ↦ run_scan k n (i + 1) run_start 0 s
    ]

pub pmm_alloc_contiguous : ℕ → Pmm → ℕ × Pmm
pmm_alloc_contiguous n s = run_scan (s.total_pages - first_frame) n first_frame 0 0 s

-- The body of `pmm_free`, on the frame's index.
pub release_page : ℕ → Pmm → Pmm
release_page idx s =
    if bitmap_is_free s.bitmap idx
    then s
    else record s { bitmap = bitmap_set_free s.bitmap idx; free_pages = add64 s.free_pages 1 }

-- `none` is an access outside `phys_bitmap`.
pub pmm_free : ℕ → Pmm → Option Pmm
pmm_free phys_addr s =
    let idx = phys_addr / page_size in
    if ltb (idx / 8) bitmap_size then some (release_page idx s) else none
