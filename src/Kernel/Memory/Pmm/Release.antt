-- ===== src/Kernel/Memory/Pmm/Release.antt =====
-- `pmm_free`: what it frees, and that it undoes an allocation.
use aion_os.Prelude.{
  ℕ, ◌+◌, ◌/◌, ◌%◌, ◌^◌, ◌≤◌, ◌<◌, ◌≡◌, ◌≢◌, refl, ◌∙◌, true, none, some, inl, inr, arith, ltb,
  ◌==◌, if◌then◌else◌, Bool-cases, lt→ltb, ltb_ge,
}
use aion_os.Prelude.Words.{add64}
use aion_os.Kernel.Memory.Bitmap.{
  page_size, max_pages, bitmap_size, set_free-IsBytes, is_free-set_free,
}
use aion_os.Kernel.Memory.Pmm.{Pmm, first_frame, pmm_alloc, release_page, pmm_free}
use aion_os.Kernel.Memory.Pmm.Count.{count_free-le, count_free-ext, count_free-set_free}
use aion_os.Kernel.Memory.Pmm.State.{is_free, IsValid}
use aion_os.Kernel.Memory.Pmm.Alloc.{pmm_alloc-Allocation}
use aion_os.Kernel.Memory.Pmm.Contiguous.{Allocation, no_room, run}

-- `t` is `s` with frame `p` free.
pub record Freed (d : ℕ) (s : Pmm) (p : ℕ) (t : Pmm) : Type 0 where
  pub frames : (q : ℕ) → is_free t q ≡ (if p == q then true else is_free s q)
  pub total : t.total_pages ≡ s.total_pages
  pub valid : IsValid d t

count_up : (i a b : ℕ) {n : ℕ} → i < n → b ≡ a + (if ltb i n then 1 else 0) → b ≡ a + 1
count_up i a b h e = ground arith

counter_up :
    (f a b d : ℕ) → (f + d) % 2 ^ 64 ≡ a → b ≡ a + 1 → a < 2 ^ 32 → (add64 f 1 + d) % 2 ^ 64 ≡ b
counter_up f a b d h e small = omega arith

pub release_page-Freed :
    {d : ℕ} {s : Pmm} (p : ℕ) → IsValid d s → p < max_pages → Freed d s p (release_page p s)
unfolding release_page
release_page-Freed {d} {s} p v h = elim (Bool-cases (is_free s p)) [
  | inl free ↦ rw free (record { frames = λ q. ground arith; total = refl; valid = v })
  | inr used ↦ rw used (record {
    frames = is_free-set_free s.bitmap v.bytes p;
    total = refl;
    valid = record {
      bytes = set_free-IsBytes s.bitmap v.bytes p;
      word = omega arith;
      tracked = v.tracked;
      counted =
          counter_up s.free_pages _ _ d v.counted
            (count_up p _ _ h (count_free-set_free s.bitmap v.bytes p used max_pages))
            (omega (arith, count_free-le max_pages s.bitmap));
    };
  })
]

-- An address in a tracked frame is released: that frame is free afterwards, no other changes, and
-- the counter still agrees; to release a free frame changes nothing.
pub pmm_free-Freed :
    {d : ℕ} {s : Pmm} (phys_addr : ℕ)
    → IsValid d s
    → phys_addr / page_size < max_pages
    → (t : Pmm) × (pmm_free phys_addr s ≡ some t) × Freed d s (phys_addr / page_size) t
unfolding pmm_free
pmm_free-Freed {s} a v h = (
  release_page (a / page_size) s,
  rw (lt→ltb (a / page_size / 8) bitmap_size (omega arith)),
  release_page-Freed (a / page_size) v h,
)

-- An address past the tracked frames is an access outside the bitmap.
pub pmm_free-none :
    (s : Pmm) (phys_addr : ℕ) → max_pages ≤ phys_addr / page_size → pmm_free phys_addr s ≡ none
unfolding pmm_free
pmm_free-none s a h = rw (ltb_ge (a / page_size / 8) bitmap_size (omega arith))

module _ {d : ℕ} {s : Pmm} (v : IsValid d s) where
  same_counter :
      {t : Pmm} → IsValid d t → ((q : ℕ) → is_free t q ≡ is_free s q) → t.free_pages ≡ s.free_pages
  same_counter {t} w same =
      omega (
        arith,
        v.counted,
        w.counted,
        count_free-ext max_pages t.bitmap s.bitmap same,
        v.word,
        w.word,
      )

  undo :
      {out : ℕ × Pmm}
      → Allocation s 1 out
      → out.0 ≢ 0
      → (u : Pmm) × (pmm_free out.0 out.1 ≡ some u)
        × ((q : ℕ) → is_free u q ≡ is_free s q)
        × (u.total_pages ≡ s.total_pages)
        × (u.free_pages ≡ s.free_pages)
  undo (no_room none_left) ne = absurd (ne refl)
  undo (run p {r} e low high free before frames total keeps) ne =
      let (u, eq, freed) = pmm_free-Freed r (keeps d v) (omega (arith, v.tracked)) in
      let idx : r / page_size ≡ p = omega arith in
      let same : (q : ℕ) → is_free u q ≡ is_free s q =
        λ q. ground (arith, freed.frames q, frames q, free q, idx) in
      (u, eq, same, freed.total ∙ total, same_counter freed.valid same)

  -- Freeing the frame that an allocation returned restores the state: the same frames are free and
  -- both counters have their old values.
  pub pmm_free-pmm_alloc :
      first_frame ≤ s.total_pages
      → (pmm_alloc s).0 ≢ 0
      → (u : Pmm) × (pmm_free (pmm_alloc s).0 (pmm_alloc s).1 ≡ some u)
        × ((q : ℕ) → is_free u q ≡ is_free s q)
        × (u.total_pages ≡ s.total_pages)
        × (u.free_pages ≡ s.free_pages)
  pmm_free-pmm_alloc big ne = undo (pmm_alloc-Allocation v big) ne
