-- ===== src/Kernel/Memory/Pmm/Exact.antt =====
-- The counters while frames are marked free, and while the low frames are taken again.
use aion_os.Prelude.{
  ℕ, zero, suc, ◌+◌, ◌%◌, ◌^◌, ◌≤◌, ◌<◌, ◌≡◌, refl, Bool, true, false, arith, ltb, min,
  if◌then◌else◌, ap, dec_lt, lt→ltb, ltb_ge,
}
use aion_os.Prelude.Words.{add64}
use aion_os.Kernel.Memory.Bitmap.{
  max_pages, Bitmap, bitmap_set_free, bitmap_is_free, IsBytes, set_free-IsBytes,
}
use aion_os.Kernel.Memory.Pmm.{Pmm, first_frame, mark_page, mark_pages, take_page, take_pages}
use aion_os.Kernel.Memory.Pmm.Count.{count_free, count_free-le, count_free-set_free}
use aion_os.Kernel.Memory.Pmm.State.{is_free, in_run}
use aion_os.Kernel.Memory.Pmm.Boot.{is_free-mark_page}

pub absent : (b : Bool) → (b ≡ true → ⊥) → b ≡ false
absent true h = absurd (h refl)
absent false h = refl

-- While no frame is marked twice, both counters are the number of free frames.
pub record Exact (s : Pmm) : Type 0 where
  pub bytes : IsBytes s.bitmap
  pub total : s.total_pages ≡ count_free max_pages s.bitmap
  pub free : s.free_pages ≡ s.total_pages

one_more :
    (i a b : ℕ) {n : ℕ}
    → i < n
    → b ≡ a + (if ltb i n then 1 else 0)
    → b ≤ n
    → n ≤ 2 ^ 32
    → add64 a 1 ≡ b
one_more i a b h e le small = ground arith

mark_page-Exact :
    (idx : ℕ) {s : Pmm}
    → Exact s
    → (idx < max_pages → is_free s idx ≡ false)
    → Exact (mark_page idx s)
unfolding mark_page
mark_page-Exact idx {s} x fresh = elim (dec_lt idx max_pages) [
  | yes h ↦
      let up : add64 s.total_pages 1 ≡ count_free max_pages (bitmap_set_free s.bitmap idx) =
        one_more idx s.total_pages _ h
          (rw x.total (count_free-set_free s.bitmap x.bytes idx (fresh h) max_pages))
          (count_free-le max_pages _) (omega arith) in
      rw (lt→ltb idx max_pages h) (record {
        bytes = set_free-IsBytes s.bitmap x.bytes idx;
        total = up;
        free = ap (λ k. add64 k 1) x.free;
      })
  | no h ↦ rw (ltb_ge idx max_pages (omega arith)) x
]

pub mark_pages-Exact :
    (n start p : ℕ) {s : Pmm}
    → Exact s
    → start + p + n ≤ 2 ^ 64
    → ((q : ℕ) → q < max_pages → in_run (start + p) n q ≡ true → is_free s q ≡ false)
    → Exact (mark_pages n start p s)
unfolding mark_pages
mark_pages-Exact zero start p x h fresh = x
mark_pages-Exact (suc n) start p {s} x h fresh =
    let idx = add64 start p in
    mark_pages-Exact n start (p + 1) (mark_page-Exact idx x (λ lt. fresh idx lt (ground arith)))
      (omega arith) λ q lt at. ground (arith, is_free-mark_page idx s q x.bytes, fresh q)

pub count_free-none :
    (n : ℕ) (m : Bitmap) → ((q : ℕ) → bitmap_is_free m q ≡ false) → count_free n m ≡ 0
unfolding count_free
count_free-none zero m h = refl
count_free-none (suc n) m h = ground (arith, h n, count_free-none n m h)

-- Emptying the low frames takes them out of the count.
pub count_free-low :
    (m m' : Bitmap)
    → ((q : ℕ) → bitmap_is_free m' q ≡ (if ltb q first_frame then false else bitmap_is_free m q))
    → (n : ℕ) → count_free n m' + count_free (min n first_frame) m ≡ count_free n m
unfolding count_free
count_free-low m m' h zero = refl
count_free-low m m' h (suc n) = elim (dec_lt n first_frame) [
  | yes lt ↦
      let e : min (suc n) first_frame ≡ suc (min n first_frame) = omega arith in
      let e' : min n first_frame ≡ n = omega arith in
      rw (e, e') (ground (arith, h n, count_free-low m m' h n, ap (λ k. count_free k m) e'))
  | no ge ↦
      let e : min (suc n) first_frame ≡ min n first_frame = omega arith in
      rw e (ground (arith, h n, count_free-low m m' h n))
]

pub free_pages-take_pages :
    (n i : ℕ) (s : Pmm)
    → s.free_pages < 2 ^ 64
    → ((take_pages n i s).free_pages < 2 ^ 64)
      × (((take_pages n i s).free_pages + n) % 2 ^ 64 ≡ s.free_pages)
unfolding take_pages take_page
free_pages-take_pages zero i s h = omega arith
free_pages-take_pages (suc n) i s h =
    omega (arith, free_pages-take_pages n (i + 1) (take_page i s) (omega arith))
