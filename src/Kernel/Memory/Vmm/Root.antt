-- ===== src/Kernel/Memory/Vmm/Root.antt =====
-- The tree of tables that `vmm_init` starts from: a cleared root and nothing below it.
use aion_os.Prelude.{
  ℕ, zero, suc, ◌+◌, ◌/◌, ◌%◌, ◌≤◌, ◌≡◌, refl, ap, sym, ◌∙◌, false, none, some, arith, ◌==◌,
  if◌then◌else◌,
}
use aion_os.Kernel.Memory.Pmm.{Pmm, first_frame}
use aion_os.Kernel.Memory.Pmm.State.{is_free, IsValid}
use aion_os.Kernel.Memory.Vmm.{pte_addr, index_of, zero_table}
use aion_os.Kernel.Memory.Vmm.Path.{path, prefix, IsTable, path_step, path-none, index-lt}
use aion_os.Kernel.Memory.Vmm.Tree.{IsTree}
use aion_os.Kernel.Memory.Vmm.Fresh.{zero_table-entry}

-- A cleared root alone is a tree.
module _ {d r : ℕ} (m : ℕ → ℕ) {pmm : Pmm} (table : IsTable r)
    (used : is_free pmm (r / 4096) ≡ false) (valid : IsValid d pmm)
    (room : first_frame ≤ pmm.total_pages) where
  pub root_only : (v k : ℕ) → path (zero_table 512 r 0 m) r v (k + 1) ≡ none
  unfolding path
  root_only v k = path-none (zero_table 512 r 0 m) r v k 1 (
      path_step (zero_table 512 r 0 m) r v 0 refl
      ∙ ap (λ e. if e % 2 == 1 then some (pte_addr e) else none)
          (zero_table-entry r 512 0 (index_of v 4) m (omega arith) (omega (arith, index-lt v 4))))

  at_root : (v k : ℕ) {t : ℕ} → path (zero_table 512 r 0 m) r v k ≡ some t → (k ≡ 0) × (t ≡ r)
  unfolding path
  at_root v zero e = (refl, ground arith)
  at_root v (suc k) e = absurd (
      no_table (
        sym (root_only v k)
        ∙ ap (path (zero_table 512 r 0 m) r v) {x = k + 1} {y = suc k} (omega arith)
        ∙ e))
    where
      no_table : {t : ℕ} → none ≡ some t → ⊥
      no_table e = cc

  pub root-IsTree : IsTree d r (zero_table 512 r 0 m) pmm
  unfolding prefix
  root-IsTree = record {
    root = table;
    unique = λ v w j k hj hk p q.
        let start = (at_root v j p).0 in
        (start ∙ sym (at_root w k q).0, ap (prefix v) start ∙ ap (prefix w) (sym start));
    used = λ v k h p. ap (λ x. is_free pmm (x / 4096)) (at_root v k p).1 ∙ used;
    frames = valid;
    room = room;
  }
