-- ===== src/Kernel/Memory/Vmm/Translate.antt =====
-- `vmm_virt_to_phys` and the pointer of `vmm_get_pte`, by the path of the address.
use aion_os.Prelude.{
  ℕ, ◌+◌, ◌/◌, ◌%◌, ◌^◌, ◌≡◌, refl, ap, ◌∙◌, Bool, true, false, Option, none, some, inl, inr, arith,
  if◌then◌else◌, Bool-cases,
}
use aion_os.Prelude.Bits.{or_fields}
use aion_os.Kernel.Memory.Vmm.{
  Vmm, is_present, index_of, entry_at, entry_in, vmm_get_pte, translated, vmm_virt_to_phys,
}
use aion_os.Kernel.Memory.Vmm.Path.{path, follow}
use aion_os.Kernel.Memory.Vmm.Walk.{walk_read}

-- The physical address in a frame.
pub in_frame : ℕ → Option ℕ → ℕ
in_frame v none = 0
in_frame v (some f) = f + v % 2 ^ 12

pub in_frame-none : (w : ℕ) → in_frame w none ≡ 0
unfolding in_frame
in_frame-none w = refl

pub in_frame-if :
    (w f : ℕ) (a b : Bool) (o : Option ℕ)
    → in_frame w (if a then (if b then some f else none) else o)
      ≡ (if a then (if b then f + w % 2 ^ 12 else 0) else in_frame w o)
unfolding in_frame
in_frame-if w f true true o = refl
in_frame-if w f true false o = refl
in_frame-if w f false b o = refl

module _ (r v : ℕ) (s : Vmm) where
  -- The pointer is that of the entry in the last-level table.
  pub get_pte_read : vmm_get_pte r v 1 false s ≡ entry_in v 1 (path s.words r v 3, s)
  unfolding vmm_get_pte path
  get_pte_read = ap (entry_in v 1) (walk_read r v 3 0 4 s refl refl refl)

  translated-entry :
      (o : Option ℕ)
      → translated v (entry_in v 1 (o, s)) ≡ in_frame v (follow s.words (index_of v 1) o)
  unfolding translated entry_in in_frame follow
  translated-entry none = refl
  translated-entry (some t) = elim (Bool-cases (is_present (s.words (entry_at t (index_of v 1))))) [
    | inl present ↦ rw present (
        or_fields 12 (s.words (entry_at t (index_of v 1)) / 2 ^ 12 % 2 ^ 40) (v % 2 ^ 12)
          (omega arith))
    | inr absent ↦ rw absent
  ]

  pub virt_to_phys-path : vmm_virt_to_phys r v s ≡ in_frame v (path s.words r v 4)
  unfolding vmm_virt_to_phys path
  virt_to_phys-path = ap (translated v) get_pte_read ∙ translated-entry (path s.words r v 3)
