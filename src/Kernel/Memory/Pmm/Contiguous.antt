-- ===== src/Kernel/Memory/Pmm/Contiguous.antt =====
-- `pmm_alloc_contiguous` against its contract: the lowest run of free frames, or 0.
use aion_os.Prelude.{
  ℕ, zero, suc, ◌+◌, ◌-◌, ◌*◌, ◌%◌, ◌^◌, ◌≤◌, ◌<◌, ◌≡◌, refl, false, inl, inr, arith, ltb, ◌==◌,
  if◌then◌else◌, Bool-cases,
}
use aion_os.Kernel.Memory.Bitmap.{page_size}
use aion_os.Kernel.Memory.Pmm.{Pmm, first_frame, take_pages, run_scan, pmm_alloc_contiguous}
use aion_os.Kernel.Memory.Pmm.State.{
  is_free, in_run, IsValid, AllFree, extend, resize, HasUsed, is_free-take_pages, total-take_pages,
  take_pages-IsValid,
}

-- What an allocation of `n` frames may return, with the state that it leaves.
pub data Allocation (s : Pmm) (n : ℕ) : ℕ × Pmm → Type 0 where
  no_room :
      ((p : ℕ) → first_frame ≤ p → p + n ≤ s.total_pages → HasUsed s p n) → Allocation s n (0, s)
  run :
      (p : ℕ) {r : ℕ} {t : Pmm}
      → r ≡ p * page_size
      → first_frame ≤ p
      → p + n ≤ s.total_pages
      → AllFree s p n
      → ((p' : ℕ) → first_frame ≤ p' → p' < p → HasUsed s p' n)
      → ((q : ℕ) → is_free t q ≡ (if in_run p n q then false else is_free s q))
      → t.total_pages ≡ s.total_pages
      → ((d : ℕ) → IsValid d s → IsValid d t)
      → Allocation s n (r, t)

module _ {d : ℕ} {s : Pmm} (v : IsValid d s) {n : ℕ} where
  take_run :
      (p : ℕ)
      → first_frame ≤ p
      → p + n ≤ s.total_pages
      → AllFree s p n
      → ((p' : ℕ) → first_frame ≤ p' → p' < p → HasUsed s p' n)
      → Allocation s n (p * page_size % 2 ^ 64, take_pages n p s)
  take_run p low high free before =
      run p (omega (arith, v.tracked)) low high free before
        (λ q. is_free-take_pages n s p q v.bytes) (total-take_pages n p s)
        λ d' v'. take_pages-IsValid n p v' (omega (arith, v'.tracked)) free

  -- No run that begins at or before a frame in use fits.
  restart :
      {st i len : ℕ}
      → st + len ≡ i
      → len < n
      → is_free s i ≡ false
      → ((p : ℕ) → first_frame ≤ p → p < st → HasUsed s p n)
      → (p : ℕ) → first_frame ≤ p
      → p < i + 1
      → HasUsed s p n
  restart {st} {i} e short u before p lo hi = elim (Bool-cases (ltb p st)) [
    | inl old ↦ before p lo (ground arith)
    | inr new ↦ (i, omega arith, ground arith, u)
  ]

  -- `st` is where the run of free frames that ends before `i` begins.
  run_scan-Allocation :
      (k i run_start run_len st : ℕ)
      → st ≡ (if run_len == 0 then i else run_start)
      → i + k ≡ s.total_pages
      → st + run_len ≡ i
      → run_len < n
      → first_frame ≤ st
      → AllFree s st run_len
      → ((p : ℕ) → first_frame ≤ p → p < st → HasUsed s p n)
      → Allocation s n (run_scan k n i run_start run_len s)
  unfolding run_scan
  run_scan-Allocation zero i rs rl st es ei e short low free before =
      no_room λ p lo hi. before p lo (omega arith)
  run_scan-Allocation (suc k) i rs rl st es ei e short low free before =
      elim (Bool-cases (is_free s i)) [
        | inl f ↦
            let more = extend s st i rl e free f in
            rw (f, run_scan)
              (elim (Bool-cases (rl + 1 == n)) [
                | inl full ↦
                    rw (full, run_scan, ← es)
                      (take_run st low (ground arith) (resize s (ground arith) more) before)
                | inr part ↦
                    rw (part, run_scan, ← es)
                      (run_scan-Allocation k (i + 1) st (rl + 1) st (ground arith) (omega arith)
                        (omega arith) (ground arith) low more before)
              ])
        | inr u ↦
            rw (u, run_scan)
              (run_scan-Allocation k (i + 1) rs 0 (i + 1) refl (omega arith) (omega arith)
                (omega arith) (omega arith) (λ q lo hi. absurd (omega arith))
                (restart e short u before))
      ]

pub pmm_alloc_contiguous-Allocation :
    {d : ℕ} {s : Pmm} (n : ℕ)
    → IsValid d s
    → first_frame ≤ s.total_pages
    → 0 < n
    → Allocation s n (pmm_alloc_contiguous n s)
unfolding pmm_alloc_contiguous
pmm_alloc_contiguous-Allocation {s} n v big pos =
    run_scan-Allocation v (s.total_pages - first_frame) first_frame 0 0 first_frame refl
      (omega arith) refl pos (omega arith) (λ q lo hi. absurd (omega arith))
      λ p lo hi. absurd (omega arith)
