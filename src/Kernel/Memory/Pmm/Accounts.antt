-- ===== src/Kernel/Memory/Pmm/Accounts.antt =====
-- The counters after `pmm_init`: how far `phys_free_pages` is from the number of free frames.
use aion_os.Prelude.{
  ℕ, zero, suc, ◌+◌, ◌-◌, ◌/◌, ◌%◌, ◌^◌, ◌≤◌, ◌<◌, ◌≡◌, ◌≢◌, refl, sym, ◌∙◌, true, false, some, inl,
  inr, arith, if◌then◌else◌, Bool-cases, ne→==, ap,
}
use aion_os.Prelude.Words.{add64, mul64}
use aion_os.Kernel.Memory.Bitmap.{page_size, max_pages}
use aion_os.Kernel.Memory.Pmm.{
  EfiMemoryDescriptor, Pmm, first_frame, is_usable, mark_region, mark_regions, take_pages, pmm_init,
}
use aion_os.Kernel.Memory.Pmm.Count.{count_free, count_free-le}
use aion_os.Kernel.Memory.Pmm.State.{
  is_free, is_free-take_pages, total-take_pages, take_pages-IsBytes, IsValid,
}
use aion_os.Kernel.Memory.Pmm.Boot.{
  IsRegion, in_region, is_free-mark_region, descriptor, covered, marked, cleared,
  is_free-mark_regions,
}
use aion_os.Kernel.Memory.Pmm.Exact.{
  absent, Exact, mark_pages-Exact, count_free-none, count_free-low, free_pages-take_pages,
}

module _ (memory : ℕ → EfiMemoryDescriptor) (desc desc_size : ℕ)
    (regions : (a : ℕ) → IsRegion (memory a)) where
  -- No frame lies in two usable regions.
  abbrev pub Disjoint : ℕ → Type 0
  Disjoint count =
      (i j q : ℕ)
      → i < count
      → j < count
      → in_region (descriptor memory desc desc_size i) q ≡ true
      → in_region (descriptor memory desc desc_size j) q ≡ true
      → i ≡ j

  -- No frame of the regions from `i` on is marked yet.
  abbrev Unmarked : ℕ → ℕ → Pmm → Type 0
  Unmarked n i s =
      (j q : ℕ)
      → i ≤ j
      → j < i + n
      → in_region (descriptor memory desc desc_size j) q ≡ true
      → is_free s q ≡ false

  region_fits :
      (d : EfiMemoryDescriptor) → IsRegion d → d.phys_start / page_size + 0 + d.num_pages ≤ 2 ^ 64
  region_fits d r = omega arith

  mark_region-Exact :
      (d : EfiMemoryDescriptor) {s : Pmm}
      → IsRegion d
      → Exact s
      → ((q : ℕ) → in_region d q ≡ true → is_free s q ≡ false)
      → Exact (mark_region d s)
  unfolding mark_region
  mark_region-Exact d {s} r x fresh = elim (Bool-cases (is_usable d)) [
    | inl usable ↦ rw usable (
        mark_pages-Exact d.num_pages (d.phys_start / page_size) 0 x (region_fits d r)
          λ q lt at. fresh q (rw usable (ground arith)))
    | inr other ↦ rw other x
  ]

  mark_regions-Exact :
      (n i count : ℕ) {s : Pmm}
      → i + n ≡ count
      → Disjoint count
      → Exact s
      → Unmarked n i s
      → Exact (mark_regions n memory desc desc_size i s)
  unfolding mark_regions
  mark_regions-Exact zero i count e apart x fresh = x
  mark_regions-Exact (suc n) i count {s} e apart x fresh =
      let d = descriptor memory desc desc_size i in
      let r = regions (add64 desc (mul64 i desc_size)) in
      mark_regions-Exact n (i + 1) count (omega arith) apart
        (mark_region-Exact d r x λ q at. fresh i q (omega arith) (omega arith) at)
        λ j q lo hi at.
          let away : in_region d q ≡ false =
            absent (in_region d q)
              λ here. absurd (omega (arith, apart i j q (omega arith) (omega arith) here at)) in
          ground
            (arith, is_free-mark_region d s q x.bytes r, fresh j q (omega arith) (omega arith) at)

  -- How many of the first `n` frames lie in a usable region.
  pub count_usable : ℕ → ℕ → ℕ
  count_usable count zero = 0
  count_usable count (suc n) =
      (if covered memory desc desc_size count 0 n then 1 else 0) + count_usable count n

  count_free-marked :
      (count : ℕ) (s : Pmm) (n : ℕ)
      → n ≤ max_pages
      → count_free n (marked memory desc desc_size regions count s).bitmap ≡ count_usable count n
  unfolding count_free count_usable
  count_free-marked count s zero h = refl
  count_free-marked count s (suc n) h = ground (
    arith,
    is_free-mark_regions memory desc desc_size regions count 0 (record s { bitmap = λ i. 0 }) n
        (λ i. omega arith),
    cleared memory desc desc_size regions n,
    count_free-marked count s n (omega arith),
  )

  marked-Exact :
      (count : ℕ) (s : Pmm)
      → s.total_pages ≡ 0
      → s.free_pages ≡ 0
      → Disjoint count
      → Exact (marked memory desc desc_size regions count s)
  marked-Exact count s et ef apart =
      let none_free = cleared memory desc desc_size regions in
      mark_regions-Exact count 0 count (omega arith) apart
        (record {
          bytes = λ i. omega arith;
          total = et ∙ sym (count_free-none max_pages (λ i. 0) none_free);
          free = ef ∙ sym et;
        })
        λ j q lo hi at. none_free q

  drift_lem :
      (f m t low : ℕ)
      → (f + 512) % 2 ^ 64 ≡ m
      → t + low ≡ m
      → low ≤ 512
      → m ≤ max_pages
      → (f + (512 - low)) % 2 ^ 64 ≡ t
  drift_lem f m t low e e' h small = omega arith

  booted-IsValid :
      (count : ℕ) (s : Pmm)
      → Exact (marked memory desc desc_size regions count s)
      → IsValid
          (first_frame - count_usable count first_frame)
          (take_pages first_frame 0 (marked memory desc desc_size regions count s))
  booted-IsValid count s x =
      let m = marked memory desc desc_size regions count s in
      let t = take_pages first_frame 0 m in
      let below =
        count_free-low m.bitmap t.bitmap
          (λ q. ground (arith, is_free-take_pages first_frame m 0 q x.bytes)) max_pages in
      let small = count_free-le max_pages m.bitmap in
      let (word, behind) =
        free_pages-take_pages first_frame 0 m (omega (arith, x.free, x.total, small)) in
      record {
        bytes = take_pages-IsBytes first_frame 0 m x.bytes;
        word = word;
        tracked = omega (arith, total-take_pages first_frame 0 m, x.total, small);
        counted =
            drift_lem t.free_pages (count_free max_pages m.bitmap) _
              (count_usable count first_frame) (behind ∙ x.free ∙ x.total)
              (ap (λ k. count_free max_pages t.bitmap + k)
                  (sym (count_free-marked count s first_frame (omega arith)))
                ∙ below)
              (rw (← count_free-marked count s first_frame (omega arith))
                (count_free-le first_frame m.bitmap))
              small;
      }

  -- From zeroed counters, and with regions that do not overlap, the boot leaves a state in which
  -- `phys_free_pages` is less than the number of free frames by the number of the first 512 frames
  -- that are in no usable region (modulo 2 ^ 64), and `phys_total_pages` is at most the number of
  -- frames tracked.
  pub pmm_init-IsValid :
      (mmap_size : ℕ) (s : Pmm)
      → desc_size ≢ 0
      → s.total_pages ≡ 0
      → s.free_pages ≡ 0
      → Disjoint (mmap_size / desc_size)
      → (t : Pmm) × (pmm_init memory desc mmap_size desc_size s ≡ some t)
        × IsValid (first_frame - count_usable (mmap_size / desc_size) first_frame) t
  unfolding pmm_init
  pmm_init-IsValid size s ne et ef apart =
      let count = size / desc_size in
      (
        take_pages first_frame 0 (marked memory desc desc_size regions count s),
        rw (ne→== desc_size 0 ne),
        booted-IsValid count s (marked-Exact count s et ef apart),
      )
