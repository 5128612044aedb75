-- ===== src/Kernel/Memory/Vmm/Map.antt =====
-- `vmm_map` and `vmm_unmap` against what `vmm_virt_to_phys` answers before and after.
use aion_os.Prelude.{
  ℕ, ◌+◌, ◌/◌, ◌%◌, ◌^◌, ◌≡◌, refl, ap, ap₂, sym, ◌∙◌, Bool, true, false, Option, none, some, inl,
  inr, List, ◌∷◌, arith, ◌==◌, if◌then◌else◌, Bool-cases, ==_iff, bit_or,
}
use aion_os.Kernel.Memory.Bitmap.{write}
use aion_os.Kernel.Memory.Vmm.{
  Vmm, is_present, pte_addr, pte_present, index_of, entry_at, entry_in, vmm_get_pte, store_pte,
  vmm_map, clear_pte, vmm_unmap, vmm_virt_to_phys,
}
use aion_os.Kernel.Memory.Vmm.Path.{path, prefix, prefix_page, path_step, path_stop}
use aion_os.Kernel.Memory.Vmm.Tree.{path-prefix, frame-write_leaf, write_leaf-IsTree}
use aion_os.Kernel.Memory.Vmm.Fresh.{pte_addr-or, present-or}
use aion_os.Kernel.Memory.Vmm.Walk.{IsVmm, IsFull, Kept, Walked, found, full, walk-Walked}
use aion_os.Kernel.Memory.Vmm.Translate.{
  in_frame, in_frame-if, in_frame-none, get_pte_read, virt_to_phys-path,
}

-- The number of the page of an address, in the 48 bits that the tables look at.
abbrev pub page_of : ℕ → ℕ
page_of v = v / 2 ^ 12 % 2 ^ 36

-- `t` translates every address as `s` does.
abbrev pub SameMap : ℕ → Vmm → Vmm → Type 0
SameMap r s t = (w : ℕ) → vmm_virt_to_phys r w t ≡ vmm_virt_to_phys r w s

-- What `vmm_map` may return, with the state that it leaves.
pub data Mapped (r v phys : ℕ) (s : Vmm) : Bool × Vmm → Type 0 where
  mapped :
      {t : Vmm}
      → ((w : ℕ)
          → vmm_virt_to_phys r w t ≡ (
              if page_of v == page_of w
              then pte_addr phys + w % 2 ^ 12
              else vmm_virt_to_phys r w s))
      → t.flushed ≡ v ∷ s.flushed
      → Mapped r v phys s (true, t)
  no_frame :
      {t : Vmm} → IsFull t → SameMap r s t → t.flushed ≡ s.flushed → Mapped r v phys s (false, t)

Kept-SameMap : {r : ℕ} {s t : Vmm} → Kept r s t → SameMap r s t
Kept-SameMap {r} {s} {t} kept w =
    virt_to_phys-path r w t ∙ ap (in_frame w) (kept.frames w) ∙ sym (virt_to_phys-path r w s)

-- Writing the last-level entry of `v`, as `vmm_virt_to_phys` sees it.
module _ {d r : ℕ} (s : Vmm) (tree : IsVmm d r s) (v x : ℕ) {t : ℕ}
    (at : path s.words r v 3 ≡ some t) (flushed : List ℕ) where
  abbrev pub written : Vmm
  written = record s { words = write s.words (entry_at t (index_of v 1)) x; flushed = flushed }

  pub written-IsVmm : IsVmm d r written
  written-IsVmm = write_leaf-IsTree tree v at x

  pub translate-written :
      (w : ℕ)
      → vmm_virt_to_phys r w written ≡ (
          if page_of v == page_of w
          then (if is_present x then pte_addr x + w % 2 ^ 12 else 0)
          else vmm_virt_to_phys r w s)
  translate-written w =
      virt_to_phys-path r w written
      ∙ ap (in_frame w) (frame-write_leaf tree v at x w)
      ∙ in_frame-if w (pte_addr x) (prefix v 4 == prefix w 4) (is_present x) (path s.words r w 4)
      ∙ ap (λ o. if prefix v 4 == prefix w 4 then present_at w else o)
          (sym (virt_to_phys-path r w s))
      ∙ ap₂ (λ a b. if a == b then present_at w else vmm_virt_to_phys r w s) (prefix_page v)
          (prefix_page w)
    where
      present_at : ℕ → ℕ
      present_at w = if is_present x then pte_addr x + w % 2 ^ 12 else 0

module _ {d r : ℕ} (v phys flags : ℕ) (plain : pte_addr flags ≡ 0) where
  store_pte-Mapped :
      (s : Vmm) {res : Option ℕ × Vmm}
      → Walked d r v s res
      → IsVmm d r (store_pte v phys flags (entry_in v 1 res)).1
        × Mapped r v phys s (store_pte v phys flags (entry_in v 1 res))
  unfolding store_pte entry_in
  store_pte-Mapped s (found {t} {s'} tree at kept) =
      let x : ℕ = bit_or (bit_or (pte_addr phys) flags) pte_present in
      let address : pte_addr x ≡ pte_addr phys =
        pte_addr-or (bit_or (pte_addr phys) flags) pte_present refl
        ∙ pte_addr-or (pte_addr phys) flags (omega arith)
        ∙ omega arith in
      let there : is_present x ≡ true =
        present-or (bit_or (pte_addr phys) flags) pte_present refl in
      (
        written-IsVmm s' tree v x at (v ∷ s'.flushed),
        mapped
            (λ w.
              translate-written s' tree v x at (v ∷ s'.flushed) w
              ∙ ap
                  (λ b.
                    if page_of v == page_of w
                    then (if b then pte_addr x + w % 2 ^ 12 else 0)
                    else vmm_virt_to_phys r w s')
                  there
              ∙ ap₂ (λ (f : ℕ) (o : ℕ). if page_of v == page_of w then f + w % 2 ^ 12 else o)
                  address (Kept-SameMap kept w))
            (ap (λ l. v ∷ l) kept.flushed),
      )
  store_pte-Mapped s (full tree kept none_free) =
      (tree, no_frame none_free (Kept-SameMap kept) kept.flushed)

  -- With flags that have no bit of the address, mapping keeps the tree of tables. It makes the page
  -- of `v` translate to the page of `phys` and leaves every other translation alone, and the
  -- processor's copy of the page is dropped; or no frame is left for a table, and then every
  -- translation stays as it was.
  pub vmm_map-Mapped :
      (s : Vmm)
      → IsVmm d r s
      → IsVmm d r (vmm_map r v phys flags s).1 × Mapped r v phys s (vmm_map r v phys flags s)
  unfolding vmm_map vmm_get_pte path
  vmm_map-Mapped s tree = store_pte-Mapped s (walk-Walked d r v 3 0 4 s refl refl tree refl)

module _ {d r : ℕ} (v : ℕ) (s : Vmm) (tree : IsVmm d r s) where
  -- Addresses on a page that leads to no frame translate to 0.
  unmapped :
      path s.words r v 4 ≡ none → (w : ℕ) → page_of v ≡ page_of w → vmm_virt_to_phys r w s ≡ 0
  unmapped stop w same =
      virt_to_phys-path r w s
      ∙ ap (in_frame w)
          (sym (path-prefix s.words r v w 4 (prefix_page v ∙ same ∙ sym (prefix_page w))) ∙ stop)
      ∙ in_frame-none w

  already :
      path s.words r v 4 ≡ none
      → (w : ℕ)
      → vmm_virt_to_phys r w s ≡ (if page_of v == page_of w then 0 else vmm_virt_to_phys r w s)
  already stop w = elim (Bool-cases (page_of v == page_of w)) [
    | inl same ↦ rw same (unmapped stop w ((==_iff _ _).0 same))
    | inr other ↦ rw other
  ]

  -- What `vmm_unmap` leaves.
  Unmapped : Vmm → Type 0
  Unmapped t =
      IsVmm d r t
      × ((w : ℕ)
          → vmm_virt_to_phys r w t ≡ (if page_of v == page_of w then 0 else vmm_virt_to_phys r w s))

  clear_pte-Unmapped :
      (o : Option ℕ) → path s.words r v 3 ≡ o → Unmapped (clear_pte v (entry_in v 1 (o, s)))
  unfolding clear_pte entry_in Unmapped
  clear_pte-Unmapped none stop = (tree, already (path_stop s.words r v 3 stop))
  clear_pte-Unmapped (some t) at =
      elim (Bool-cases (is_present (s.words (entry_at t (index_of v 1))))) [
        | inl present ↦ rw present (
          written-IsVmm s tree v 0 at (v ∷ s.flushed),
          translate-written s tree v 0 at (v ∷ s.flushed),
        )
        | inr absent ↦ rw absent (tree, already (path_step s.words r v 3 at ∙ rw absent))
      ]

  -- Unmapping keeps a tree of tables. The page of `v` translates to 0 from then on, whether it
  -- was mapped or not, and every other translation stays as it was.
  pub vmm_unmap-Unmapped :
      IsVmm d r (vmm_unmap r v s)
      × ((w : ℕ)
          → vmm_virt_to_phys r w (vmm_unmap r v s)
            ≡ (if page_of v == page_of w then 0 else vmm_virt_to_phys r w s))
  unfolding vmm_unmap Unmapped
  vmm_unmap-Unmapped = rw (get_pte_read r v s) (clear_pte-Unmapped (path s.words r v 3) refl)
