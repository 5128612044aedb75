-- ===== src/Kernel/Memory/Vmm/Walk.antt =====
-- `vmm_get_pte`: with `create` unset it follows the path and changes nothing; with `create` set it
-- makes the missing tables, unless the frames run out.
use aion_os.Prelude.{
  ℕ, zero, suc, ◌+◌, ◌-◌, ◌/◌, ◌<◌, ◌≡◌, refl, ap, sym, ◌∙◌, Bool, true, false, Option, none, some,
  inl, inr, arith, ◌==◌, if◌then◌else◌, Bool-cases,
}
use aion_os.Kernel.Memory.Pmm.{Pmm, pmm_alloc}
use aion_os.Kernel.Memory.Pmm.State.{is_free}
use aion_os.Kernel.Memory.Pmm.Contiguous.{Allocation, no_room, run}
use aion_os.Kernel.Memory.Pmm.Alloc.{pmm_alloc-Allocation}
use aion_os.Kernel.Memory.Vmm.{
  Vmm, is_present, pte_addr, index_of, entry_at, install, ensure, descend, walk,
}
use aion_os.Kernel.Memory.Vmm.Path.{IsTable, path, path_step, path-none}
use aion_os.Kernel.Memory.Vmm.Tree.{IsTree}
use aion_os.Kernel.Memory.Vmm.Grow.{grown_frames, grown-path, grown_next, grown-IsTree}

abbrev pub IsVmm : ℕ → ℕ → Vmm → Type 0
IsVmm d r s = IsTree d r s.words s.pmm

-- No frame that the frame manager hands out is left.
abbrev pub IsFull : Vmm → Type 0
IsFull s = (pmm_alloc s.pmm).0 ≡ 0

-- The frame manager of `t` has no frame that that of `s` has not.
pub record Fewer (s t : Vmm) : Type 0 where
  pub frees : (q : ℕ) → is_free t.pmm q ≡ true → is_free s.pmm q ≡ true
  pub total : t.pmm.total_pages ≡ s.pmm.total_pages

-- Every address leads to the frame that it led to, and the registers are as they were.
pub record Kept (r : ℕ) (s t : Vmm) : Type 0 where
  pub frames : (w : ℕ) → path t.words r w 4 ≡ path s.words r w 4
  pub root : t.kernel_pml4 ≡ s.kernel_pml4
  pub cr3 : t.cr3 ≡ s.cr3
  pub flushed : t.flushed ≡ s.flushed
  pub fewer : Fewer s t

Kept-refl : (r : ℕ) (s : Vmm) → Kept r s s
Kept-refl r s = record {
  frames = λ w. refl;
  root = refl;
  cr3 = refl;
  flushed = refl;
  fewer = record { frees = λ q e. e; total = refl };
}

Kept-trans : {r : ℕ} {s t u : Vmm} → Kept r s t → Kept r t u → Kept r s u
Kept-trans a b = record {
  frames = λ w. b.frames w ∙ a.frames w;
  root = b.root ∙ a.root;
  cr3 = b.cr3 ∙ a.cr3;
  flushed = b.flushed ∙ a.flushed;
  fewer = record {
    frees = λ q e. a.fewer.frees q (b.fewer.frees q e);
    total = b.fewer.total ∙ a.fewer.total;
  };
}

module _ (d r v : ℕ) where
  -- What `ensure` returns for the entry of the table `t` at depth `k`.
  data Ensured (k t : ℕ) (s : Vmm) : Bool × Vmm → Type 0 where
    there :
        {s' : Vmm}
        → IsVmm d r s'
        → path s'.words r v (suc k) ≡ some (pte_addr (s'.words (entry_at t (index_of v (4 - k)))))
        → Kept r s s'
        → Ensured k t s (true, s')
    missing : {s' : Vmm} → IsVmm d r s' → Kept r s s' → IsFull s' → Ensured k t s (false, s')

  -- What the loop returns.
  pub data Walked (s : Vmm) : Option ℕ × Vmm → Type 0 where
    found :
        {t : ℕ} {s' : Vmm}
        → IsVmm d r s'
        → path s'.words r v 3 ≡ some t
        → Kept r s s'
        → Walked s (some t, s')
    full : {s' : Vmm} → IsVmm d r s' → Kept r s s' → IsFull s' → Walked s (none, s')

  module _ (s : Vmm) (tree : IsVmm d r s) (k : ℕ) (low : k < 3) {t : ℕ}
      (at : path s.words r v k ≡ some t) where
    install-Ensured :
        {res : ℕ × Pmm}
        → is_present (s.words (entry_at t (index_of v (4 - k)))) ≡ false
        → Allocation s.pmm 1 res
        → pmm_alloc s.pmm ≡ res
        → Ensured k t s (install (entry_at t (index_of v (4 - k))) res s)
    unfolding install
    install-Ensured absent (no_room none_free) e = missing tree (Kept-refl r s) (ap (λ p. p.0) e)
    install-Ensured absent (run p {r = f} {t = pmm'} at_p low_p high free first after total valid)
          e =
        let number : f / 4096 ≡ p = omega arith in
        let table : IsTable f = (omega arith, omega (arith, tree.frames.tracked)) in
        let fresh : is_free s.pmm (f / 4096) ≡ true =
          ap (is_free s.pmm) number ∙ free p (omega arith) (omega arith) in
        let nonzero : (f == 0) ≡ false = ground arith in
        rw nonzero (
          there
            (grown-IsTree tree v k low at absent table fresh (valid d tree.frames) total
              λ q. ground (arith, after q))
            (grown-path tree v k low at absent table fresh
              ∙ ap (λ x. some x) (sym (grown_next tree v k low at absent table fresh)))
            (record {
              frames = grown_frames tree v k low at absent table fresh;
              root = refl;
              cr3 = refl;
              flushed = refl;
              fewer = record { frees = λ q free_after. ground (arith, after q); total = total };
            }))

    ensure-Ensured : Ensured k t s (ensure (entry_at t (index_of v (4 - k))) true s)
    unfolding ensure
    ensure-Ensured = elim (Bool-cases (is_present (s.words (entry_at t (index_of v (4 - k)))))) [
      | inl present ↦
          rw present (there tree (path_step s.words r v k at ∙ rw present) (Kept-refl r s))
      | inr absent ↦
          rw absent (install-Ensured absent (pmm_alloc-Allocation tree.frames tree.room) refl)
    ]

  widen : {s s' : Vmm} {res : Option ℕ × Vmm} → Kept r s s' → Walked s' res → Walked s res
  widen kept (found tree at kept') = found tree at (Kept-trans kept kept')
  widen kept (full tree kept' none_free) = full tree (Kept-trans kept kept') none_free

  -- One round of the loop, given the rounds after it.
  descend-Walked :
      (k : ℕ) (s : Vmm) {t : ℕ} {res : Bool × Vmm} (next : ℕ → Vmm → Option ℕ × Vmm)
      → ((s' : Vmm) (t' : ℕ)
          → IsVmm d r s'
          → path s'.words r v (suc k) ≡ some t'
          → Walked s' (next t' s'))
      → Ensured k t s res
      → Walked s (descend next (entry_at t (index_of v (4 - k))) res)
  unfolding descend
  descend-Walked k s {t} next rest (there {s'} tree' at kept) =
      widen kept (rest s' (pte_addr (s'.words (entry_at t (index_of v (4 - k))))) tree' at)
  descend-Walked k s next rest (missing tree' kept none_free) = full tree' kept none_free

  pub walk-Walked :
      (n k l : ℕ) (s : Vmm) {t : ℕ}
      → k + n ≡ 3
      → l ≡ 4 - k
      → IsVmm d r s
      → path s.words r v k ≡ some t
      → Walked s (walk n l t v true s)
  unfolding walk
  walk-Walked zero k l s sum level tree at =
      found tree (ap (path s.words r v) (omega arith) ∙ at) (Kept-refl r s)
  walk-Walked (suc n) k l s {t} sum level tree at = rw level (
      descend-Walked k s (λ t' s'. walk n (4 - k - 1) t' v true s')
        (λ s' t' tree' next.
          walk-Walked n (suc k) (4 - k - 1) s' (omega arith) (omega arith) tree' next)
        (ensure-Ensured s tree k (omega arith) at))

-- Without `create` the loop reads the path to the last-level table and changes nothing.
pub walk_read :
    (r v n k l : ℕ) (s : Vmm) {t : ℕ}
    → k + n ≡ 3
    → l ≡ 4 - k
    → path s.words r v k ≡ some t
    → walk n l t v false s ≡ (path s.words r v 3, s)
unfolding walk ensure
walk_read r v zero k l s sum level at =
    ap (λ o. (o, s)) (sym at ∙ ap (path s.words r v) (omega arith))
walk_read r v (suc n) k l s {t} sum level at =
    rw level (elim (Bool-cases (is_present (s.words (entry_at t (index_of v (4 - k)))))) [
      | inl present ↦
          ap (round false) present
          ∙ walk_read r v n (suc k) (4 - k - 1) s (omega arith) (omega arith)
              (path_step s.words r v k at ∙ rw present)
      | inr absent ↦
          ap (round false) absent
          ∙ ap (λ o. (o, s))
              (sym (
                ap (path s.words r v) (omega arith)
                ∙ path-none s.words r v n (suc k) (path_step s.words r v k at ∙ rw absent)))
    ])
  where
    round : Bool → Bool → Option ℕ × Vmm
    round create present =
        descend (λ t' s'. walk n (4 - k - 1) t' v false s') (entry_at t (index_of v (4 - k)))
          (if present
            then (true, s)
            else if create
            then install (entry_at t (index_of v (4 - k))) (pmm_alloc s.pmm) s
            else (false, s))
