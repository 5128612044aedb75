-- ===== src/Kernel/Memory/Vmm/Full.antt =====
-- Frames are taken for tables and never given back: once they have run out they stay so.
use aion_os.Prelude.{ℕ, ◌≤◌, ◌<◌, ◌≡◌, refl, ap, ◌∙◌, false, Option, arith}
use aion_os.Kernel.Memory.Pmm.{Pmm, first_frame, pmm_alloc}
use aion_os.Kernel.Memory.Pmm.State.{is_free, IsValid}
use aion_os.Kernel.Memory.Pmm.Contiguous.{Allocation, no_room, run}
use aion_os.Kernel.Memory.Pmm.Alloc.{pmm_alloc-Allocation}
use aion_os.Kernel.Memory.Vmm.{Vmm, entry_in, store_pte, vmm_get_pte, vmm_map}
use aion_os.Kernel.Memory.Vmm.Path.{path}
use aion_os.Kernel.Memory.Vmm.Walk.{IsVmm, IsFull, Fewer, Walked, found, full, walk-Walked}

-- The frames from 512 on are all in use.
AllUsed : Pmm → Type 0
AllUsed p = (q : ℕ) → first_frame ≤ q → q < p.total_pages → is_free p q ≡ false

used_of_full : {p : Pmm} {res : ℕ × Pmm} → Allocation p 1 res → res.0 ≡ 0 → AllUsed p
unfolding AllUsed
used_of_full {p} (no_room none_free) e q lo hi =
    let (u, low, high, used) = none_free q lo (omega arith) in ap (is_free p) (omega arith) ∙ used
used_of_full (run p at_p low_p high free first after total valid) e q lo hi = absurd (omega arith)

full_of_used : {p : Pmm} {res : ℕ × Pmm} → AllUsed p → Allocation p 1 res → res.0 ≡ 0
unfolding AllUsed
full_of_used all (no_room none_free) = refl
full_of_used all (run p at_p low_p high free first after total valid) =
    ground (arith, all p low_p, free p)

-- Where no single frame is free there is no run of frames either.
pub no_run :
    {d n : ℕ} {p : Pmm} {out : ℕ × Pmm}
    → IsValid d p
    → first_frame ≤ p.total_pages
    → 0 < n
    → (pmm_alloc p).0 ≡ 0
    → Allocation p n out
    → out ≡ (0, p)
unfolding AllUsed
no_run valid room some_frame e (no_room none_free) = refl
no_run valid room some_frame e (run p at_p low_p high free first after total keeps) =
    let all = used_of_full (pmm_alloc-Allocation valid room) e in
    ground (arith, all p low_p, free p)

module _ {d r : ℕ} {s t : Vmm} (from : IsVmm d r s) (to : IsVmm d r t) where
  pub IsFull-mono : Fewer s t → IsFull s → IsFull t
  unfolding AllUsed
  IsFull-mono fewer e =
      let all = used_of_full (pmm_alloc-Allocation from.frames from.room) e in
      full_of_used (λ q lo hi. ground (arith, fewer.frees q, fewer.total, all q lo))
        (pmm_alloc-Allocation to.frames to.room)

module _ (d r v phys flags : ℕ) where
  store_pte-Fewer :
      {s : Vmm} {res : Option ℕ × Vmm}
      → Walked d r v s res
      → Fewer s (store_pte v phys flags (entry_in v 1 res)).1
        × ((store_pte v phys flags (entry_in v 1 res)).1.kernel_pml4 ≡ s.kernel_pml4)
  unfolding store_pte entry_in
  store_pte-Fewer (found tree at kept) =
      (record { frees = kept.fewer.frees; total = kept.fewer.total }, kept.root)
  store_pte-Fewer (full tree kept none_free) = (kept.fewer, kept.root)

  pub vmm_map-Fewer :
      (s : Vmm)
      → IsVmm d r s
      → Fewer s (vmm_map r v phys flags s).1
        × ((vmm_map r v phys flags s).1.kernel_pml4 ≡ s.kernel_pml4)
  unfolding vmm_map vmm_get_pte path
  vmm_map-Fewer s tree = store_pte-Fewer (walk-Walked d r v 3 0 4 s refl refl tree refl)
