-- ===== src/Kernel/Memory/Pmm/Alloc.antt =====
-- `pmm_alloc`: the allocation of one frame.
use aion_os.Prelude.{◌≤◌, arith, ℕ, zero, suc, ◌+◌, ◌-◌, ◌≡◌, refl, inl, inr, Bool-cases}
use aion_os.Kernel.Memory.Pmm.{
  Pmm, first_frame, take_pages, alloc_scan, run_scan, pmm_alloc, pmm_alloc_contiguous,
}
use aion_os.Kernel.Memory.Pmm.State.{is_free, IsValid}
use aion_os.Kernel.Memory.Pmm.Contiguous.{Allocation, pmm_alloc_contiguous-Allocation}

alloc_scan-run_scan :
    (k i run_start : ℕ) (s : Pmm) → alloc_scan k i s ≡ run_scan k 1 i run_start 0 s
unfolding alloc_scan run_scan take_pages
alloc_scan-run_scan zero i rs s = refl
alloc_scan-run_scan (suc k) i rs s = elim (Bool-cases (is_free s i)) [
  | inl f ↦ rw (f, alloc_scan, run_scan)
  | inr u ↦ rw (u, alloc_scan, run_scan) (alloc_scan-run_scan k (i + 1) rs s)
]

-- Allocating one frame is allocating a contiguous run of one frame.
pub pmm_alloc-contiguous : (s : Pmm) → pmm_alloc s ≡ pmm_alloc_contiguous 1 s
unfolding pmm_alloc pmm_alloc_contiguous
pmm_alloc-contiguous s = alloc_scan-run_scan (s.total_pages - first_frame) first_frame 0 s

-- `pmm_alloc` returns the lowest free frame from frame 512 on and takes only that one, or returns
-- 0 and changes nothing when all the frames that it scans are in use.
pub pmm_alloc-Allocation :
    {d : ℕ} {s : Pmm} → IsValid d s → first_frame ≤ s.total_pages → Allocation s 1 (pmm_alloc s)
pmm_alloc-Allocation {s} v big =
    rw (pmm_alloc-contiguous s) (pmm_alloc_contiguous-Allocation 1 v big (omega arith))
