-- ===== src/Kernel/Memory/Vmm/Grow.antt =====
-- A new table of `vmm_get_pte`: the frame is cleared, and the entry of the table above points to it.
use aion_os.Prelude.{
  ℕ, zero, suc, ◌-◌, ◌/◌, ◌≤◌, ◌<◌, ◌≡◌, ◌≢◌, ◌⊎◌, refl, ap, sym, ◌∙◌, true, false, none, some, inl,
  inr, arith, ◌==◌, if◌then◌else◌, Bool-cases, Option-cases, ==_iff, bit_or,
}
use aion_os.Kernel.Memory.Bitmap.{write}
use aion_os.Kernel.Memory.Pmm.{Pmm}
use aion_os.Kernel.Memory.Pmm.State.{is_free, IsValid}
use aion_os.Kernel.Memory.Vmm.{
  is_present, pte_addr, pte_present, pte_writable, index_of, entry_at, zero_table,
}
use aion_os.Kernel.Memory.Vmm.Path.{
  path, prefix, IsTable, index-lt, entry_at_inj, path-IsTable, path_step, path_stop,
}
use aion_os.Kernel.Memory.Vmm.Tree.{IsTree, entry_shared}
use aion_os.Kernel.Memory.Vmm.Fresh.{frame_present, frame_addr, zero_table-other, zero_table-entry}

module _ {d r : ℕ} {m : ℕ → ℕ} {pmm : Pmm} (tree : IsTree d r m pmm) (v k : ℕ) (low : k < 3) {t : ℕ}
    (at : path m r v k ≡ some t) (absent : is_present (m (entry_at t (index_of v (4 - k)))) ≡ false)
    {f : ℕ} (table : IsTable f) (fresh : is_free pmm (f / 4096) ≡ true) where
  -- Memory with the new table `f`.
  abbrev pub grown : ℕ → ℕ
  grown =
      write (zero_table 512 f 0 m) (entry_at t (index_of v (4 - k)))
        (bit_or (bit_or f pte_present) pte_writable)

  not_fresh : (w j : ℕ) {u : ℕ} → j ≤ 3 → path m r w j ≡ some u → f ≢ u
  not_fresh w j h p e = ground (arith, tree.used w j h p, ap (λ x. is_free pmm (x / 4096)) e)

  -- The new table is empty.
  grown_empty : (i : ℕ) → i < 512 → grown (entry_at f i) ≡ 0
  grown_empty i h = elim (Bool-cases (entry_at t (index_of v (4 - k)) == entry_at f i)) [
    | inl same ↦ absurd (
        not_fresh v k (omega arith) at (
          sym
            (entry_at_inj (path-IsTable m tree.root v k at) table (index-lt v (4 - k)) h
              ((==_iff _ _).0 same)).0))
    | inr other ↦ rw other (zero_table-entry f 512 0 i m (omega arith) (omega arith))
  ]

  -- The other tables are as they were, but for the entry that points to the new one.
  grown_old :
      (w j : ℕ) {u : ℕ}
      → j ≤ 3
      → path m r w j ≡ some u
      → (entry_at t (index_of v (4 - k)) == entry_at u (index_of w (4 - j))) ≡ false
      → grown (entry_at u (index_of w (4 - j))) ≡ m (entry_at u (index_of w (4 - j)))
  grown_old w j {u} h p other = rw other (
      zero_table-other f (entry_at u (index_of w (4 - j))) 512 0 m (omega arith) λ i lt e.
        not_fresh w j h p
          (entry_at_inj table (path-IsTable m tree.root w j p) lt (index-lt w (4 - j)) e).0)

  grown_at :
      (a : ℕ)
      → (entry_at t (index_of v (4 - k)) == a) ≡ true
      → grown a ≡ bit_or (bit_or f pte_present) pte_writable
  grown_at a hit = rw hit

  points_to_new :
      (if is_present (bit_or (bit_or f pte_present) pte_writable)
        then some (pte_addr (bit_or (bit_or f pte_present) pte_writable))
        else none)
      ≡ some f
  points_to_new = rw (frame_present f) (ap (λ x. some x) (frame_addr f table.0 table.1))

  -- What becomes of a path: it stays, or it now ends with the new table.
  abbrev pub Grows : ℕ → ℕ → Type 0
  Grows w j =
      (path grown r w j ≡ path m r w j)
      ⊎ ((j ≡ suc k)
          × (prefix v j ≡ prefix w j)
          × (path grown r w j ≡ some f)
          × (path m r w j ≡ none))

  -- One step on from a path that stays.
  Grows-kept : (w j : ℕ) → j ≤ 3 → path grown r w j ≡ path m r w j → Grows w (suc j)
  Grows-kept w j h same = elim (Option-cases (path m r w j)) [
    | inl stop ↦ inl (path_stop grown r w j (same ∙ stop) ∙ sym (path_stop m r w j stop))
    | inr (u, p) ↦
        elim (Bool-cases (entry_at t (index_of v (4 - k)) == entry_at u (index_of w (4 - j)))) [
          | inl hit ↦
              let shared = entry_shared tree v k (omega arith) at w j u h p ((==_iff _ _).0 hit) in
              inr (
                ap suc shared.0,
                ap (λ n. prefix v (suc n)) shared.0
                    ∙ shared.1
                    ∙ ap (λ n. prefix w (suc n)) (sym shared.0),
                path_step grown r w j (same ∙ p)
                    ∙ ap (λ e. if is_present e then some (pte_addr e) else none) (grown_at _ hit)
                    ∙ points_to_new,
                path_step m r w j p
                    ∙ ap (λ a. if is_present (m a) then some (pte_addr (m a)) else none)
                        (sym ((==_iff _ _).0 hit))
                    ∙ ap
                        (λ b.
                          if b then some (pte_addr (m (entry_at t (index_of v (4 - k))))) else none)
                        absent,
              )
          | inr other ↦ inl (
              path_step grown r w j (same ∙ p)
              ∙ ap (λ e. if is_present e then some (pte_addr e) else none) (grown_old w j h p other)
              ∙ sym (path_step m r w j p))
        ]
  ]

  -- One step on from the new table.
  grows_new :
      (w j : ℕ)
      → path grown r w j ≡ some f
      → path m r w j ≡ none
      → path grown r w (suc j) ≡ path m r w (suc j)
  grows_new w j p q =
      path_step grown r w j p
      ∙ ap (λ e. if is_present e then some (pte_addr e) else none)
          (grown_empty (index_of w (4 - j)) (index-lt w (4 - j)))
      ∙ sym (path_stop m r w j q)

  pub grows : (w j : ℕ) → j ≤ 4 → Grows w j
  unfolding path
  grows w zero h = inl refl
  grows w (suc j) h = elim (grows w j (omega arith)) [
    | inl same ↦ Grows-kept w j (omega arith) same
    | inr (depth, agree, p, q) ↦ inl (grows_new w j p q)
  ]

  -- The frames at the ends of the paths stay as they were.
  pub grown_frames : (w : ℕ) → path grown r w 4 ≡ path m r w 4
  grown_frames w = elim (grows w 4 (omega arith)) [
    | inl same ↦ same
    | inr (depth, agree, p, q) ↦ absurd (omega arith)
  ]

  still : Grows v k → path grown r v k ≡ some t
  still (inl same) = same ∙ at
  still (inr (depth, agree, new, old)) = absurd (omega arith)

  unique_grown :
      (w y i j : ℕ) {u : ℕ}
      → i ≤ 3
      → j ≤ 3
      → path grown r w i ≡ some u
      → path grown r y j ≡ some u
      → Grows w i
      → Grows y j
      → (i ≡ j) × (prefix w i ≡ prefix y i)
  unique_grown w y i j hi hj p q (inl a) (inl b) = tree.unique w y i j hi hj (sym a ∙ p) (sym b ∙ q)
  unique_grown w y i j hi hj p q (inl a) (inr (depth, agree, new, old)) =
      absurd (not_fresh w i hi (sym a ∙ p) (cc))
  unique_grown w y i j hi hj p q (inr (depth, agree, new, old)) (inl b) =
      absurd (not_fresh y j hj (sym b ∙ q) (cc))
  unique_grown w y i j hi hj p q (inr (depth, agree, new, old)) (inr (depth', agree', new', old')) =
      (
        depth ∙ sym depth',
        sym agree
            ∙ ap (prefix v) (depth ∙ sym depth')
            ∙ agree'
            ∙ ap (prefix y) (depth' ∙ sym depth),
      )

  used_grown :
      (pmm' : Pmm)
      → ((q : ℕ) → is_free pmm' q ≡ (if f / 4096 == q then false else is_free pmm q))
      → (w j : ℕ) {u : ℕ} → j ≤ 3
      → path grown r w j ≡ some u
      → Grows w j
      → is_free pmm' (u / 4096) ≡ false
  used_grown pmm' taken w j {u} h p (inl a) =
      ground (arith, taken (u / 4096), tree.used w j h (sym a ∙ p))
  used_grown pmm' taken w j {u} h p (inr (depth, agree, new, old)) =
      let same : f ≡ u = cc in ground (arith, taken (u / 4096), ap (λ (x : ℕ). x / 4096) same)

  pub grown-path : path grown r v (suc k) ≡ some f
  grown-path =
      path_step grown r v k (still (grows v k (omega arith)))
      ∙ ap (λ e. if is_present e then some (pte_addr e) else none)
          (grown_at _ ((==_iff _ _).1 refl))
      ∙ points_to_new

  -- The entry, read again, leads to the new table.
  pub grown_next : pte_addr (grown (entry_at t (index_of v (4 - k)))) ≡ f
  grown_next =
      ap pte_entry (grown_at (entry_at t (index_of v (4 - k))) ((==_iff _ _).1 refl))
      ∙ frame_addr f table.0 table.1
    where
      pte_entry : ℕ → ℕ
      pte_entry e = pte_addr e

  -- The tables still make up a tree, when the frame manager takes the new frame and no other.
  pub grown-IsTree :
      {pmm' : Pmm}
      → IsValid d pmm'
      → pmm'.total_pages ≡ pmm.total_pages
      → ((q : ℕ) → is_free pmm' q ≡ (if f / 4096 == q then false else is_free pmm q))
      → IsTree d r grown pmm'
  grown-IsTree {pmm'} valid total taken = record {
    root = tree.root;
    unique = λ w y i j hi hj p q.
        unique_grown w y i j hi hj p q (grows w i (omega arith)) (grows y j (omega arith));
    used = λ w j h p. used_grown pmm' taken w j h p (grows w j (omega arith));
    frames = valid;
    room = omega (arith, tree.room);
  }
