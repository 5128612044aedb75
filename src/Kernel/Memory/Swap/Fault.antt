-- ===== src/Kernel/Memory/Swap/Fault.antt =====
-- The page fault handler against what `vmm_virt_to_phys` answers before and after.
use aion_os.Prelude.{
  ℕ, ◌+◌, ◌*◌, ◌/◌, ◌%◌, ◌^◌, ◌≡◌, refl, ap, ap₂, sym, ◌∙◌, Bool, true, false, Option, none, some,
  ◌∷◌, arith, ◌==◌, if◌then◌else◌, inl, inr, Bool-cases, bit_or,
}
use aion_os.Prelude.Words.{sub64}
use aion_os.Kernel.Memory.Pmm.{Pmm, pmm_alloc}
use aion_os.Kernel.Memory.Pmm.State.{is_free, in_run}
use aion_os.Kernel.Memory.Pmm.Contiguous.{Allocation, no_room, run}
use aion_os.Kernel.Memory.Pmm.Alloc.{pmm_alloc-Allocation}
use aion_os.Kernel.Memory.Vmm.{
  Vmm, pte_present, pte_writable, index_of, entry_at, entry_in, vmm_virt_to_phys,
}
use aion_os.Kernel.Memory.Vmm.Path.{path}
use aion_os.Kernel.Memory.Vmm.Tree.{taken-IsTree}
use aion_os.Kernel.Memory.Vmm.Fresh.{frame_present, frame_addr}
use aion_os.Kernel.Memory.Vmm.Walk.{IsVmm, IsFull}
use aion_os.Kernel.Memory.Vmm.Translate.{get_pte_read, virt_to_phys-path}
use aion_os.Kernel.Memory.Vmm.Map.{page_of, written-IsVmm, translate-written}
use aion_os.Kernel.Memory.Swap.{
  Swap, is_swapped, swap_index, FaultOutcome, no_entry, swapped_in, no_frame_free, unexpected,
  swap_in, resolve, swap_page_fault_handler,
}

-- What the handler may leave after a fault at `v`; `e` is the last-level entry of `v`.
pub data Faulted (d v : ℕ) (s : Vmm) (w : Swap) : FaultOutcome × Vmm × Swap → Type 0 where
  no_table : path s.words s.kernel_pml4 v 3 ≡ none → Faulted d v s w (no_entry, s, w)
  not_swapped :
      {t : ℕ} (e : ℕ)
      → path s.words s.kernel_pml4 v 3 ≡ some t
      → e ≡ s.words (entry_at t (index_of v 1))
      → is_swapped e ≡ false
      → Faulted d v s w (unexpected e, s, w)
  out_of_frames :
      {t : ℕ}
      → path s.words s.kernel_pml4 v 3 ≡ some t
      → is_swapped (s.words (entry_at t (index_of v 1))) ≡ true
      → IsFull s
      → Faulted d v s w (no_frame_free, s, w)
  resolved :
      {t : ℕ} (e f : ℕ) {s' : Vmm} {w' : Swap}
      → path s.words s.kernel_pml4 v 3 ≡ some t
      → e ≡ s.words (entry_at t (index_of v 1))
      → is_swapped e ≡ true
      → is_free s.pmm (f / 4096) ≡ true
      → ((q : ℕ) → is_free s'.pmm q ≡ (if f / 4096 == q then false else is_free s.pmm q))
      → IsVmm d s.kernel_pml4 s'
      → s'.kernel_pml4 ≡ s.kernel_pml4
      → ((y : ℕ)
          → vmm_virt_to_phys s.kernel_pml4 y s' ≡ (
              if page_of v == page_of y
              then f + y % 2 ^ 12
              else vmm_virt_to_phys s.kernel_pml4 y s))
      → s'.flushed ≡ v / 2 ^ 12 * 2 ^ 12 ∷ s.flushed
      → w' ≡ record w { used = sub64 w.used 1 }
      → Faulted d v s w (swapped_in (swap_index e), s', w')

taken_at :
    (p n : ℕ) (a b : Bool)
    → a ≡ (if in_run p 1 n then false else b)
    → a ≡ (if p == n then false else b)
taken_at p n a b e = ground arith

module _ {d : ℕ} (v : ℕ) (s : Vmm) (w : Swap) (tree : IsVmm d s.kernel_pml4 s) where
  swap_in-Faulted :
      {t : ℕ} {res : ℕ × Pmm}
      → path s.words s.kernel_pml4 v 3 ≡ some t
      → is_swapped (s.words (entry_at t (index_of v 1))) ≡ true
      → Allocation s.pmm 1 res
      → pmm_alloc s.pmm ≡ res
      → Faulted d v s w (swap_in v (entry_at t (index_of v 1)) res s w)
  unfolding swap_in
  swap_in-Faulted at swapped (no_room none_free) e = out_of_frames at swapped (ap (λ p. p.0) e)
  swap_in-Faulted {t} at swapped
        (run p {r = f} {t = pmm'} at_p low_p high free first after total valid) e =
      let r : ℕ = s.kernel_pml4 in
      let number : f / 4096 ≡ p = omega arith in
      let nonzero : (f == 0) ≡ false = ground arith in
      let x : ℕ = bit_or (bit_or f pte_present) pte_writable in
      let s1 : Vmm = record s { pmm = pmm' } in
      let taken = λ (n : ℕ). taken_at p n (is_free pmm' n) (is_free s.pmm n) (after n) in
      let tree1 : IsVmm d r s1 =
        taken-IsTree tree (valid d tree.frames) total (λ n u. ground (arith, taken n)) in
      let page : ℕ = v / 2 ^ 12 * 2 ^ 12 in
      rw nonzero (
        resolved (s.words (entry_at t (index_of v 1))) f at refl swapped
          (ap (is_free s.pmm) number ∙ free p (omega arith) (omega arith))
          (λ q.
            ap (λ n. is_free pmm' q) number
            ∙ taken q
            ∙ ap (λ n. if n == q then false else is_free s.pmm q) (sym number))
          (written-IsVmm s1 tree1 v x at (page ∷ s.flushed)) refl
          (λ y.
            translate-written s1 tree1 v x at (page ∷ s.flushed) y
            ∙ ap₂
                (λ (b : Bool) (a : ℕ).
                  if page_of v == page_of y
                  then (if b then a + y % 2 ^ 12 else 0)
                  else vmm_virt_to_phys r y s1)
                (frame_present f) (frame_addr f (omega arith) (omega (arith, tree.frames.tracked)))
            ∙ ap (λ o. if page_of v == page_of y then f + y % 2 ^ 12 else o)
                (virt_to_phys-path r y s1 ∙ sym (virt_to_phys-path r y s)))
          refl refl)

  resolve-Faulted :
      (o : Option ℕ)
      → path s.words s.kernel_pml4 v 3 ≡ o
      → Faulted d v s w (resolve v w (entry_in v 1 (o, s)))
  unfolding resolve entry_in
  resolve-Faulted none at = no_table at
  resolve-Faulted (some t) at =
      elim (Bool-cases (is_swapped (s.words (entry_at t (index_of v 1))))) [
        | inl swapped ↦
            rw swapped
              (swap_in-Faulted at swapped (pmm_alloc-Allocation tree.frames tree.room) refl)
        | inr other ↦ rw other (not_swapped (s.words (entry_at t (index_of v 1))) at refl other)
      ]

  -- While the page tables are a tree: a fault at an address whose entry says that the page is in
  -- swap takes one free frame, makes the page translate to it and leaves every other translation
  -- and the tree of tables as they are; if no frame is left it changes nothing. A fault anywhere
  -- else changes nothing.
  pub swap_page_fault_handler-Faulted : Faulted d v s w (swap_page_fault_handler v s w)
  unfolding swap_page_fault_handler
  swap_page_fault_handler-Faulted =
      rw (get_pte_read s.kernel_pml4 v s) (resolve-Faulted (path s.words s.kernel_pml4 v 3) refl)
