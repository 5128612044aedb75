-- ===== src/Kernel/Memory/Pmm/Boot.antt =====
-- `pmm_init`: which frames are free after boot, and what the counters then say.
use aion_os.Prelude.{
  ℕ, zero, suc, ◌+◌, ◌/◌, ◌^◌, ◌≤◌, ◌<◌, ◌≡◌, ◌≢◌, ◌↔◌, Bool, true, false, ◌&&◌, ◌||◌, some, inl,
  inr, arith, ltb, ◌==◌, if◌then◌else◌, ==_iff, ne→==, Bool-cases,
}
use aion_os.Prelude.Words.{add64, mul64}
use aion_os.Kernel.Memory.Bitmap.{
  page_size, max_pages, bitmap_is_free, IsBytes, set_free-IsBytes, is_free-set_free,
}
use aion_os.Kernel.Memory.Pmm.{
  EfiMemoryDescriptor, Pmm, first_frame, is_usable, mark_page, mark_pages, mark_region,
  mark_regions, take_pages, pmm_init,
}
use aion_os.Kernel.Memory.Pmm.State.{is_free, in_run, is_free-take_pages}

-- What the firmware's memory map promises of each descriptor: the fields are `uint64_t`, and the
-- region does not reach past the address space.
pub record IsRegion (d : EfiMemoryDescriptor) : Type 0 where
  pub start : d.phys_start < 2 ^ 64
  pub size : d.num_pages ≤ 2 ^ 52

-- Frame `q` lies in the region and the region is usable as RAM.
abbrev pub in_region : EfiMemoryDescriptor → ℕ → Bool
in_region d q = is_usable d && in_run (d.phys_start / page_size) d.num_pages q

pub mark_page-IsBytes : (idx : ℕ) (s : Pmm) → IsBytes s.bitmap → IsBytes (mark_page idx s).bitmap
unfolding mark_page
mark_page-IsBytes idx s b i = ground (arith, set_free-IsBytes s.bitmap b idx i, b i)

pub is_free-mark_page :
    (idx : ℕ) (s : Pmm) (q : ℕ)
    → IsBytes s.bitmap
    → is_free (mark_page idx s) q ≡ (is_free s q || (ltb q max_pages && idx == q))
unfolding mark_page
is_free-mark_page idx s q b = ground (arith, is_free-set_free s.bitmap b idx q)

pub mark_pages-IsBytes :
    (n start p : ℕ) (s : Pmm) → IsBytes s.bitmap → IsBytes (mark_pages n start p s).bitmap
unfolding mark_pages
mark_pages-IsBytes zero start p s b = b
mark_pages-IsBytes (suc n) start p s b =
    mark_pages-IsBytes n start (p + 1) _ (mark_page-IsBytes (add64 start p) s b)

pub is_free-mark_pages :
    (n start p : ℕ) (s : Pmm) (q : ℕ)
    → IsBytes s.bitmap
    → start + p + n ≤ 2 ^ 64
    → is_free (mark_pages n start p s) q
      ≡ (is_free s q || (ltb q max_pages && in_run (start + p) n q))
unfolding mark_pages
is_free-mark_pages zero start p s q b h = ground arith
is_free-mark_pages (suc n) start p s q b h = ground (
  arith,
  is_free-mark_pages n start (p + 1) (mark_page (add64 start p) s) q
      (mark_page-IsBytes (add64 start p) s b) (omega arith),
  is_free-mark_page (add64 start p) s q b,
)

pub mark_region-IsBytes :
    (d : EfiMemoryDescriptor) (s : Pmm) → IsBytes s.bitmap → IsBytes (mark_region d s).bitmap
unfolding mark_region
mark_region-IsBytes d s b i =
    ground (arith, mark_pages-IsBytes d.num_pages (d.phys_start / page_size) 0 s b i, b i)

pub is_free-mark_region :
    (d : EfiMemoryDescriptor) (s : Pmm) (q : ℕ)
    → IsBytes s.bitmap
    → IsRegion d
    → is_free (mark_region d s) q ≡ (is_free s q || (ltb q max_pages && in_region d q))
unfolding mark_region
is_free-mark_region d s q b r =
    ground (arith, is_free-mark_pages d.num_pages (d.phys_start / page_size) 0 s q b (omega arith))

module _ (memory : ℕ → EfiMemoryDescriptor) (desc desc_size : ℕ) where
  -- The descriptor that round `i` of `pmm_init` reads.
  abbrev pub descriptor : ℕ → EfiMemoryDescriptor
  descriptor i = memory (add64 desc (mul64 i desc_size))

  pub covered : ℕ → ℕ → ℕ → Bool
  covered zero i q = false
  covered (suc n) i q = in_region (descriptor i) q || covered n (i + 1) q

  -- One of the first `count` descriptors is a usable region with frame `q`.
  abbrev pub Usable : ℕ → ℕ → Type 0
  Usable count q = (j : ℕ) × (j < count) × (in_region (descriptor j) q ≡ true)

  pub covered-Usable :
      (n i q : ℕ)
      → covered n i q ≡ true
      → (j : ℕ) × (i ≤ j) × (j < i + n) × (in_region (descriptor j) q ≡ true)
  unfolding covered
  covered-Usable zero i q h = cc
  covered-Usable (suc n) i q h = elim (Bool-cases (in_region (descriptor i) q)) [
    | inl here ↦ (i, omega arith, omega arith, here)
    | inr not_here ↦
        let (j, lo, hi, at) = covered-Usable n (i + 1) q (ground arith) in
        (j, omega arith, omega arith, at)
  ]

  pub Usable-covered :
      (n i q j : ℕ) → i ≤ j → j < i + n → in_region (descriptor j) q ≡ true → covered n i q ≡ true
  unfolding covered
  Usable-covered zero i q j lo hi h = absurd (omega arith)
  Usable-covered (suc n) i q j lo hi h = elim (Bool-cases (i == j)) [
    | inl same ↦ ground (arith, ==_iff i j)
    | inr other ↦ ground (arith, Usable-covered n (i + 1) q j)
  ]

  module _ (regions : (a : ℕ) → IsRegion (memory a)) where
    pub mark_regions-IsBytes :
        (n i : ℕ) (s : Pmm)
        → IsBytes s.bitmap
        → IsBytes (mark_regions n memory desc desc_size i s).bitmap
    unfolding mark_regions
    mark_regions-IsBytes zero i s b = b
    mark_regions-IsBytes (suc n) i s b =
        mark_regions-IsBytes n (i + 1) _ (mark_region-IsBytes (descriptor i) s b)

    pub is_free-mark_regions :
        (n i : ℕ) (s : Pmm) (q : ℕ)
        → IsBytes s.bitmap
        → is_free (mark_regions n memory desc desc_size i s) q
          ≡ (is_free s q || (ltb q max_pages && covered n i q))
    unfolding mark_regions covered
    is_free-mark_regions zero i s q b = ground arith
    is_free-mark_regions (suc n) i s q b = ground (
      arith,
      is_free-mark_regions n (i + 1) (mark_region (descriptor i) s) q
          (mark_region-IsBytes (descriptor i) s b),
      is_free-mark_region (descriptor i) s q b (regions (add64 desc (mul64 i desc_size))),
    )

    -- The state between the marking loop and the loop over the low frames.
    abbrev pub marked : ℕ → Pmm → Pmm
    marked count s = mark_regions count memory desc desc_size 0 (record s { bitmap = λ i. 0 })

    pub cleared : (q : ℕ) → bitmap_is_free (λ i. 0) q ≡ false
    unfolding bitmap_is_free
    cleared q = ground arith

    pub is_free-booted :
        (count : ℕ) (s : Pmm) (q : ℕ)
        → is_free (take_pages first_frame 0 (marked count s)) q
          ≡ (if ltb q first_frame then false else ltb q max_pages && covered count 0 q)
    is_free-booted count s q = ground (
      arith,
      is_free-take_pages first_frame (marked count s) 0 q
          (mark_regions-IsBytes count 0 _ (λ i. omega arith)),
      is_free-mark_regions count 0 (record s { bitmap = λ i. 0 }) q (λ i. omega arith),
      cleared q,
    )

    -- With a descriptor size other than 0 the boot succeeds, and a frame is free afterwards exactly
    -- if it is tracked, not among the first 512, and in a usable region of the memory map.
    pub pmm_init-Usable :
        (mmap_size : ℕ) (s : Pmm)
        → desc_size ≢ 0
        → (t : Pmm) × (pmm_init memory desc mmap_size desc_size s ≡ some t)
          × ((q : ℕ)
              → (is_free t q ≡ true)
                ↔ ((first_frame ≤ q) × (q < max_pages) × Usable (mmap_size / desc_size) q))
    unfolding pmm_init
    pmm_init-Usable size s ne =
        let count = size / desc_size in
        (
          take_pages first_frame 0 (marked count s),
          rw (ne→== desc_size 0 ne),
          λ q. (
            λ h.
                let at : covered count 0 q ≡ true = ground (arith, is_free-booted count s q) in
                let (j, lo, hi, used) = covered-Usable count 0 q at in
                (
                  ground (arith, is_free-booted count s q),
                  ground (arith, is_free-booted count s q),
                  (j, omega arith, used),
                ),
            λ (low, high, (j, hi, used)). ground (
              arith,
              is_free-booted count s q,
              Usable-covered count 0 q j (omega arith) (omega arith) used,
            ),
          ),
        )
