-- ===== src/Kernel/Memory/Pmm/Tests.antt =====
-- The frame manager on small memory maps.
use aion_os.Prelude.{
  ℕ, ◌*◌, ◌/◌, ◌-◌, ◌≤◌, ◌<◌, ◌≡◌, ◌↔◌, refl, true, false, some, arith, ◌==◌, if◌then◌else◌,
}
use aion_os.Prelude.Bytes.{set_bit}
use aion_os.Kernel.Memory.Bitmap.{page_size, max_pages, bitmap_is_free, bitmap_set_free}
use aion_os.Kernel.Memory.Pmm.{
  EfiMemoryDescriptor, Pmm, first_frame, pmm_init, pmm_alloc, pmm_free, release_page, alloc_scan,
}
use aion_os.Kernel.Memory.Pmm.State.{is_free, IsValid}
use aion_os.Kernel.Memory.Pmm.Release.{release_page-Freed, pmm_free-pmm_alloc}
use aion_os.Kernel.Memory.Pmm.Boot.{IsRegion, Usable, pmm_init-Usable}
use aion_os.Kernel.Memory.Pmm.Exact.{count_free-none}
use aion_os.Kernel.Memory.Pmm.Accounts.{count_usable, Disjoint, pmm_init-IsValid}

-- 1024 frames, all in use.
abbrev all_used : Pmm
all_used = record { bitmap = λ i. 0; total_pages = 1024; free_pages = 0 }

nothing_free : (q : ℕ) → bitmap_is_free (λ i. 0) q ≡ false
unfolding bitmap_is_free
nothing_free q = ground arith

all_used-IsValid : IsValid 0 all_used
all_used-IsValid = record {
  bytes = λ i. omega arith;
  word = omega arith;
  tracked = omega arith;
  counted = omega (arith, count_free-none max_pages (λ i. 0) nothing_free);
}

-- The same with frames 600 and 601 released.
abbrev two_free : Pmm
two_free = release_page 601 (release_page 600 all_used)

two_free-IsValid : IsValid 0 two_free
two_free-IsValid =
    (release_page-Freed 601 (release_page-Freed 600 all_used-IsValid (omega arith)).valid
      (omega arith)).valid

two_free-total : two_free.total_pages ≡ 1024
unfolding release_page bitmap_is_free bitmap_set_free set_bit
two_free-total = refl

pmm_alloc-two_free : (pmm_alloc two_free).0 ≡ 600 * page_size
unfolding pmm_alloc alloc_scan release_page bitmap_is_free bitmap_set_free set_bit
pmm_alloc-two_free = refl

pmm_free-pmm_alloc_example :
    (u : Pmm) × (pmm_free (pmm_alloc two_free).0 (pmm_alloc two_free).1 ≡ some u)
    × ((q : ℕ) → is_free u q ≡ is_free two_free q)
    × (u.total_pages ≡ two_free.total_pages)
    × (u.free_pages ≡ two_free.free_pages)
pmm_free-pmm_alloc_example =
    pmm_free-pmm_alloc two_free-IsValid (omega (arith, two_free-total))
      (omega (arith, pmm_alloc-two_free))

-- One usable region of 1024 frames from 1 MB on, and a reserved one behind it.
abbrev map : ℕ → EfiMemoryDescriptor
map a = record {
  type = if a == 0x8000 then 7 else 0;
  phys_start = if a == 0x8000 then 0x10_0000 else 0x50_0000;
  num_pages = 1024;
}

map-IsRegion : (a : ℕ) → IsRegion (map a)
map-IsRegion a = record { start = ground arith; size = ground arith }

abbrev before : Pmm
before = record { bitmap = λ i. 255; total_pages = 0; free_pages = 0 }

pmm_init-Usable_example :
    (t : Pmm) × (pmm_init map 0x8000 96 48 before ≡ some t)
    × ((q : ℕ)
        → (is_free t q ≡ true)
          ↔ ((first_frame ≤ q) × (q < max_pages) × Usable map 0x8000 48 (96 / 48) q))
pmm_init-Usable_example = pmm_init-Usable map 0x8000 48 map-IsRegion 96 before (λ e. omega arith)

map-Disjoint : Disjoint map 0x8000 48 map-IsRegion (96 / 48)
map-Disjoint i j q hi hj at_i at_j = ground arith

pmm_init-IsValid_example :
    (t : Pmm) × (pmm_init map 0x8000 96 48 before ≡ some t)
    × IsValid (first_frame - count_usable map 0x8000 48 map-IsRegion (96 / 48) first_frame) t
pmm_init-IsValid_example =
    pmm_init-IsValid map 0x8000 48 map-IsRegion 96 before (λ e. omega arith) refl refl map-Disjoint
