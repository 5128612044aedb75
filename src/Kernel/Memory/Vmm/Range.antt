-- ===== src/Kernel/Memory/Vmm/Range.antt =====
-- The two mapping loops of `vmm_init`. VIRT_PHYS_MAP_BASE differs from 0 only above bit 47, which
-- the tables do not look at, so both loops write the entries of the same pages.
use aion_os.Prelude.{
  ℕ, zero, suc, ◌+◌, ◌*◌, ◌%◌, ◌^◌, ◌≤◌, ◌<◌, ◌≡◌, ap, sym, ◌∙◌, Bool, false, ◌⊎◌, inl, inr, arith,
  ◌==◌, Bool-cases, ==_iff,
}
use mathlib.Core.Path.{subst}
use aion_os.Prelude.Words.{add64}
use aion_os.Kernel.Memory.Bitmap.{page_size}
use aion_os.Kernel.Memory.Kmalloc.{virt_phys_map_base}
use aion_os.Kernel.Memory.Vmm.{Vmm, pte_addr, vmm_virt_to_phys, vmm_map, map_range}
use aion_os.Kernel.Memory.Vmm.Walk.{IsVmm, IsFull}
use aion_os.Kernel.Memory.Vmm.Full.{IsFull-mono, vmm_map-Fewer}
use aion_os.Kernel.Memory.Vmm.Map.{page_of, Mapped, mapped, no_frame, vmm_map-Mapped}

-- The first 4 GB.
abbrev pub low_pages : ℕ
low_pages = 2 ^ 20

-- The low 48 bits of an address, which the tables translate.
abbrev pub low48 : ℕ → ℕ
low48 w = w % 2 ^ 48

-- `w` translates to itself; or to nothing, which for one of the first `n` pages means that there
-- was no frame left for a table.
abbrev pub Reached : ℕ → ℕ → Vmm → ℕ → Type 0
Reached n r s w =
    ((page_of w < low_pages) × (vmm_virt_to_phys r w s ≡ low48 w))
    ⊎ ((vmm_virt_to_phys r w s ≡ 0) × ((page_of w < n) → IsFull s))

page_at :
    (offset k : ℕ)
    → (offset ≡ 0) ⊎ (offset ≡ virt_phys_map_base)
    → k < low_pages
    → page_of (add64 offset (k * page_size)) ≡ k
page_at offset k (inl e) h = omega arith
page_at offset k (inr e) h = omega arith

-- One round of the loops, at page `k`.
module _ {r : ℕ} (offset k : ℕ) (at : (offset ≡ 0) ⊎ (offset ≡ virt_phys_map_base))
    (low : k < low_pages) (s : Vmm) where
  round :
      (w : ℕ) {res : Bool × Vmm}
      → Mapped r (add64 offset (k * page_size)) (k * page_size) s res
      → (IsFull s → IsFull res.1)
      → Reached k r s w
      → Reached (k + 1) r res.1 w
  round w (mapped {t} change flush) mono before =
      elim (Bool-cases (page_of (add64 offset (k * page_size)) == page_of w)) [
        | inl same ↦
            let here : k ≡ page_of w = sym (page_at offset k at low) ∙ (==_iff _ _).0 same in
            inl (omega arith, change w ∙ rw same (omega arith))
        | inr other ↦
            let elsewhere : (k == page_of w) ≡ false =
              ap (λ n. n == page_of w) (sym (page_at offset k at low)) ∙ other in
            let kept : vmm_virt_to_phys r w t ≡ vmm_virt_to_phys r w s = change w ∙ rw other in
            elim before [
              | inl (p, e) ↦ inl (p, kept ∙ e)
              | inr (z, f) ↦ inr (kept ∙ z, λ lt. mono (f (ground arith)))
            ]
      ]
  round w (no_frame none_free same flush) mono before = elim before [
    | inl (p, e) ↦ inl (p, same w ∙ e)
    | inr (z, f) ↦ inr (same w ∙ z, λ lt. none_free)
  ]

-- The state of the loops before page `k`.
pub record Ranged (d r k : ℕ) (s : Vmm) : Type 0 where
  pub tree : IsVmm d r s
  pub root : s.kernel_pml4 ≡ r
  pub reached : (w : ℕ) → Reached k r s w

module _ {d r : ℕ} (offset flags : ℕ) (at : (offset ≡ 0) ⊎ (offset ≡ virt_phys_map_base))
    (plain : pte_addr flags ≡ 0) where
  Ranged-step :
      (k : ℕ) (s : Vmm)
      → k < low_pages
      → Ranged d r k s
      → Ranged d r
          (k + 1)
          (vmm_map s.kernel_pml4 (add64 offset (k * page_size)) (k * page_size) flags s).1
  Ranged-step k s low before =
      let v : ℕ = add64 offset (k * page_size) in
      let step = vmm_map-Mapped v (k * page_size) flags plain s before.tree in
      let fewer = vmm_map-Fewer d r v (k * page_size) flags s before.tree in
      subst (λ x. Ranged d r (k + 1) (vmm_map x v (k * page_size) flags s).1) (sym before.root)
        (record {
          tree = step.0;
          root = fewer.1 ∙ before.root;
          reached = λ w.
              round offset k at low s w step.1 (IsFull-mono before.tree step.0 fewer.0)
                (before.reached w);
        })

  pub map_range-Ranged :
      (n k a j : ℕ) (s : Vmm)
      → j ≡ k + n
      → j ≤ low_pages
      → a ≡ k * page_size
      → Ranged d r k s
      → Ranged d r j (map_range n offset a flags s)
  unfolding map_range
  map_range-Ranged zero k a j s sum h e before = subst (λ i. Ranged d r i s) (omega arith) before
  map_range-Ranged (suc n) k a j s sum h e before =
      map_range-Ranged n (k + 1) (a + page_size) j
        (vmm_map s.kernel_pml4 (add64 offset a) a flags s).1 (omega arith) h (omega arith)
        (subst (λ b. Ranged d r (k + 1) (vmm_map s.kernel_pml4 (add64 offset b) b flags s).1)
          (sym e) (Ranged-step k s (omega arith) before))

restart_at : {k : ℕ} (r : ℕ) (s : Vmm) (w : ℕ) → Reached k r s w → Reached 0 r s w
restart_at r s w (inl reached) = inl reached
restart_at r s w (inr (z, f)) = inr (z, λ lt. absurd (omega arith))

pub restart : {r d k : ℕ} {s : Vmm} → Ranged d r k s → Ranged d r 0 s
restart {r} {s} before = record {
  tree = before.tree;
  root = before.root;
  reached = λ w. restart_at r s w (before.reached w);
}
