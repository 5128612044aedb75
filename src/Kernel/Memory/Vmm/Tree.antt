-- ===== src/Kernel/Memory/Vmm/Tree.antt =====
-- The invariant of the page tables below a root: they make up a tree whose frames are in use. And
-- what the write of a last-level entry does to the paths.
use aion_os.Prelude.{
  ℕ, zero, suc, ◌-◌, ◌/◌, ◌≤◌, ◌<◌, ◌≡◌, ◌≢◌, refl, ap, sym, ◌∙◌, false, none, some, inl, inr, ◌↔◌,
  arith, ◌==◌, if◌then◌else◌, Bool-cases, ==_iff,
}
use aion_os.Kernel.Memory.Bitmap.{write}
use aion_os.Kernel.Memory.Pmm.{Pmm, first_frame}
use aion_os.Kernel.Memory.Pmm.State.{is_free, IsValid}
use aion_os.Kernel.Memory.Vmm.{is_present, pte_addr, index_of, entry_at}
use aion_os.Kernel.Memory.Vmm.Path.{
  path, prefix, IsTable, index-lt, entry_at_inj, path-IsTable, follow_same, follow, path_step,
}

-- No two places of the tree hold the same table, and no table is a free frame.
pub record IsTree (d r : ℕ) (m : ℕ → ℕ) (pmm : Pmm) : Type 0 where
  pub root : IsTable r
  pub unique :
      (v w j k : ℕ) {t : ℕ}
      → j ≤ 3
      → k ≤ 3
      → path m r v j ≡ some t
      → path m r w k ≡ some t
      → (j ≡ k) × (prefix v j ≡ prefix w j)
  pub used : (v k : ℕ) {t : ℕ} → k ≤ 3 → path m r v k ≡ some t → is_free pmm (t / 4096) ≡ false
  pub frames : IsValid d pmm
  pub room : first_frame ≤ pmm.total_pages

-- The frame manager may take frames that are no tables.
pub taken-IsTree :
    {d r : ℕ} {m : ℕ → ℕ} {p q : Pmm}
    → IsTree d r m p
    → IsValid d q
    → q.total_pages ≡ p.total_pages
    → ((n : ℕ) → is_free p n ≡ false → is_free q n ≡ false)
    → IsTree d r m q
taken-IsTree tree valid total taken = record {
  root = tree.root;
  unique = tree.unique;
  used = λ v k {t} h e. taken (t / 4096) (tree.used v k h e);
  frames = valid;
  room = omega (arith, tree.room);
}

-- Paths change only by the entries that they read.
pub path_same :
    (m m' : ℕ → ℕ) (r w n : ℕ)
    → ((j t : ℕ)
        → j < n
        → path m r w j ≡ some t
        → m' (entry_at t (index_of w (4 - j))) ≡ m (entry_at t (index_of w (4 - j))))
    → path m' r w n ≡ path m r w n
unfolding path
path_same m m' r w zero same = refl
path_same m m' r w (suc n) same =
    ap (follow m' (index_of w (4 - n))) (path_same m m' r w n (λ j t h. same j t (omega arith)))
    ∙ follow_same m (index_of w (4 - n)) m' (path m r w n) (λ t. same n t (omega arith))

-- The same two indices at the same depth are the same prefix, one longer.
pub prefix-suc :
    (v w k : ℕ)
    → (prefix v (suc k) ≡ prefix w (suc k))
      ↔ ((prefix v k ≡ prefix w k) × (index_of v (4 - k) ≡ index_of w (4 - k)))
unfolding prefix
prefix-suc v w k = (λ e. omega (arith, index-lt v (4 - k), index-lt w (4 - k)), λ e. omega arith)

-- Addresses with the same indices have the same path.
pub path-prefix : (m : ℕ → ℕ) (r v w k : ℕ) → prefix v k ≡ prefix w k → path m r v k ≡ path m r w k
unfolding path
path-prefix m r v w zero e = refl
path-prefix m r v w (suc k) e =
    let (before, index) = (prefix-suc v w k).0 e in
    ap (follow m (index_of v (4 - k))) (path-prefix m r v w k before)
    ∙ ap (λ i. follow m i (path m r w k)) index

module _ {d r : ℕ} {m : ℕ → ℕ} {pmm : Pmm} (tree : IsTree d r m pmm) (v k : ℕ) {t : ℕ} (low : k ≤ 3)
    (at : path m r v k ≡ some t) where
  -- Another path reads the entry that `v` reads at depth `k` at this depth only, and only if it
  -- agrees with `v` so far.
  pub entry_shared :
      (w j u : ℕ)
      → j ≤ 3
      → path m r w j ≡ some u
      → entry_at t (index_of v (4 - k)) ≡ entry_at u (index_of w (4 - j))
      → (j ≡ k) × (prefix v (suc k) ≡ prefix w (suc k)) × (t ≡ u)
  entry_shared w j u h at' e =
      let (same_table, same_index) =
        entry_at_inj (path-IsTable m tree.root v k at) (path-IsTable m tree.root w j at')
          (index-lt v (4 - k)) (index-lt w (4 - j)) e in
      let (depth, agree) = tree.unique v w k j low h at (at' ∙ ap (λ x. some x) (sym same_table)) in
      let indices : index_of v (4 - k) ≡ index_of w (4 - k) =
        same_index ∙ ap (λ n. index_of w (4 - n)) (sym depth) in
      (sym depth, (prefix-suc v w k).1 (agree, indices), same_table)

  -- Writing the entry that `v` reads leaves every path alone that does not read it.
  pub write-path :
      (x w j u : ℕ)
      → j ≤ 3
      → path m r w j ≡ some u
      → ((j ≡ k) → prefix v (suc k) ≢ prefix w (suc k))
      → write m (entry_at t (index_of v (4 - k))) x (entry_at u (index_of w (4 - j)))
        ≡ m (entry_at u (index_of w (4 - j)))
  write-path x w j u h at' other =
      elim (Bool-cases (entry_at t (index_of v (4 - k)) == entry_at u (index_of w (4 - j)))) [
        | inl same ↦
            let shared = entry_shared w j u h at' ((==_iff _ _).0 same) in
            absurd (other shared.0 shared.1)
        | inr differ ↦ rw differ
      ]

-- The write of the entry of `v` in its last-level table.
module _ {d r : ℕ} {m : ℕ → ℕ} {pmm : Pmm} (tree : IsTree d r m pmm) (v : ℕ) {t : ℕ}
    (at : path m r v 3 ≡ some t) (x : ℕ) where
  -- The paths to the tables stay as they were.
  pub path-write_leaf :
      (w j : ℕ) → j ≤ 3 → path (write m (entry_at t (index_of v 1)) x) r w j ≡ path m r w j
  path-write_leaf w j h = path_same m (write m (entry_at t (index_of v 1)) x) r w j λ i u lt at'.
      write-path tree v 3 (omega arith) at x w i u (omega arith) at' λ e. absurd (omega arith)

  on_page :
      (w : ℕ)
      → prefix v 4 ≡ prefix w 4
      → path (write m (entry_at t (index_of v 1)) x) r w 4
        ≡ (if is_present x then some (pte_addr x) else none)
  on_page w same =
      let m' : ℕ → ℕ = write m (entry_at t (index_of v 1)) x in
      let (before, index) = (prefix-suc v w 3).0 same in
      let there : path m' r w 3 ≡ some t =
        path-write_leaf w 3 (omega arith) ∙ sym (path-prefix m r v w 3 before) ∙ at in
      path_step m' r w 3 there
      ∙ ap (λ e. if is_present e then some (pte_addr e) else none) (ground (arith, index))

  off_page :
      (w : ℕ)
      → prefix v 4 ≢ prefix w 4
      → path (write m (entry_at t (index_of v 1)) x) r w 4 ≡ path m r w 4
  off_page w other =
      path_same m (write m (entry_at t (index_of v 1)) x) r w 4
        λ i u lt at'. write-path tree v 3 (omega arith) at x w i u (omega arith) at' λ e. other

  -- The frame of an address on the page of `v` is the one that is written; every other address
  -- leads where it led.
  pub frame-write_leaf :
      (w : ℕ)
      → path (write m (entry_at t (index_of v 1)) x) r w 4 ≡ (
          if prefix v 4 == prefix w 4
          then (if is_present x then some (pte_addr x) else none)
          else path m r w 4)
  frame-write_leaf w = elim (Bool-cases (prefix v 4 == prefix w 4)) [
    | inl same ↦ rw same (on_page w ((==_iff _ _).0 same))
    | inr differ ↦
        rw differ (off_page w λ e. ground (arith, (==_iff (prefix v 4) (prefix w 4)).1 e))
  ]

  pub write_leaf-IsTree : IsTree d r (write m (entry_at t (index_of v 1)) x) pmm
  write_leaf-IsTree = record {
    root = tree.root;
    unique = λ w y j k hj hk p q.
        tree.unique w y j k hj hk (sym (path-write_leaf w j hj) ∙ p)
          (sym (path-write_leaf y k hk) ∙ q);
    used = λ w j h p. tree.used w j h (sym (path-write_leaf w j h) ∙ p);
    frames = tree.frames;
    room = tree.room;
  }
