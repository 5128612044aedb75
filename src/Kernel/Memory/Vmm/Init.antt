-- ===== src/Kernel/Memory/Vmm/Init.antt =====
-- `vmm_init`: what its tables translate.
use aion_os.Prelude.{ℕ, ◌/◌, ◌^◌, ◌≤◌, ◌≡◌, refl, ap, sym, ◌∙◌, false, inl, inr, arith, ◌==◌}
use aion_os.Kernel.Memory.Bitmap.{page_size}
use aion_os.Kernel.Memory.Pmm.{Pmm, pmm_alloc, first_frame}
use aion_os.Kernel.Memory.Pmm.State.{is_free, IsValid}
use aion_os.Kernel.Memory.Pmm.Contiguous.{Allocation, no_room, run}
use aion_os.Kernel.Memory.Pmm.Alloc.{pmm_alloc-Allocation}
use aion_os.Kernel.Memory.Kmalloc.{virt_phys_map_base}
use aion_os.Kernel.Memory.Vmm.{
  Vmm, zero_table, map_range, map_kernel, vmm_tables, vmm_init, identity_flags, direct_flags,
}
use aion_os.Kernel.Memory.Vmm.Path.{IsTable}
use aion_os.Kernel.Memory.Vmm.Root.{root-IsTree, root_only}
use aion_os.Kernel.Memory.Vmm.Walk.{IsVmm}
use aion_os.Kernel.Memory.Vmm.Translate.{in_frame, virt_to_phys-path, in_frame-none}
use aion_os.Kernel.Memory.Vmm.Range.{low_pages, Reached, Ranged, map_range-Ranged, restart}

-- What `vmm_init` may leave.
pub data Started (d : ℕ) (s t : Vmm) : Type 0 where
  no_root : (pmm_alloc s.pmm).0 ≡ 0 → t ≡ record s { kernel_pml4 = 0 } → Started d s t
  running :
      (r : ℕ)
      → r ≡ (pmm_alloc s.pmm).0
      → t.kernel_pml4 ≡ r
      → t.cr3 ≡ r
      → IsVmm d r t
      → ((w : ℕ) → Reached low_pages r t w)
      → Started d s t

module _ {d : ℕ} (r : ℕ) (s : Vmm) (start : Ranged d r 0 s) where
  map_kernel-Ranged :
      (identity direct : ℕ)
      → identity ≤ low_pages
      → direct ≤ low_pages
      → Ranged d r direct (map_kernel identity direct s)
  unfolding map_kernel
  map_kernel-Ranged identity direct hi hd =
      map_range-Ranged virt_phys_map_base direct_flags (inr refl) refl direct 0 0 direct
        (map_range identity 0 0 identity_flags s) (omega arith) hd refl
        (restart (
          map_range-Ranged 0 identity_flags (inl refl) refl identity 0 0 identity s (omega arith) hi
            refl start))

-- `mov cr3`
abbrev loaded : Vmm → Vmm
loaded s = record s { cr3 = s.kernel_pml4 }

-- The tables do not look at the registers.
loaded-Reached :
    (r : ℕ) (s : Vmm) (w : ℕ) → Reached low_pages r s w → Reached low_pages r (loaded s) w
loaded-Reached r s w (inl (low, e)) =
    inl (low, virt_to_phys-path r w (loaded s) ∙ sym (virt_to_phys-path r w s) ∙ e)
loaded-Reached r s w (inr (z, f)) =
    inr (virt_to_phys-path r w (loaded s) ∙ sym (virt_to_phys-path r w s) ∙ z, f)

module _ {d : ℕ} (s : Vmm) (valid : IsValid d s.pmm) (room : first_frame ≤ s.pmm.total_pages) where
  tables-Started :
      (identity : ℕ) {res : ℕ × Pmm}
      → identity ≤ low_pages
      → Allocation s.pmm 1 res
      → pmm_alloc s.pmm ≡ res
      → Started d s (vmm_tables identity low_pages res s)
  unfolding vmm_tables
  tables-Started identity h (no_room none_free) e = no_root (ap (λ p. p.0) e) refl
  tables-Started identity h (run p {r} {t = pmm'} at_p low_p high free first after total v) e =
      let number : r / 4096 ≡ p = omega arith in
      let table : IsTable r = (omega arith, omega (arith, valid.tracked)) in
      let used : is_free pmm' (r / 4096) ≡ false =
        ap (is_free pmm') number ∙ ground (arith, after p) in
      let nonzero : (r == 0) ≡ false = ground arith in
      let s0 : Vmm = record s { kernel_pml4 = r; pmm = pmm'; words = zero_table 512 r 0 s.words } in
      let start : Ranged d r 0 s0 = record {
        tree = root-IsTree s.words table used (v d valid) (omega arith);
        root = refl;
        reached = λ w. inr (
          virt_to_phys-path r w s0
              ∙ ap (in_frame w) (root_only s.words table used (v d valid) (omega arith) w 3)
              ∙ in_frame-none w,
          λ lt. absurd (omega arith),
        );
      } in
      let done : Ranged d r low_pages (map_kernel identity low_pages s0) =
        map_kernel-Ranged r s0 start identity low_pages h (omega arith) in
      rw nonzero (
        running r (sym (ap (λ q. q.0) e)) done.root done.root done.tree
          λ w. loaded-Reached r (map_kernel identity low_pages s0) w (done.reached w))

  -- With a well-formed frame manager of 512 frames at least: without a frame for the root
  -- `vmm_init` gives up and the old tables stay active. Otherwise the new tables are active and
  -- make up a tree. In them every address of the first 4 GB translates to itself, at
  -- VIRT_PHYS_MAP_BASE as well as below, unless the frames have run out; and no address translates
  -- to anything else.
  pub vmm_init-Started : Started d s (vmm_init s)
  unfolding vmm_init
  vmm_init-Started =
      tables-Started (2 ^ 31 / page_size) (omega arith) (pmm_alloc-Allocation valid room) refl
