-- ===== src/Kernel/Memory/Vmm/Path.antt =====
-- The tables that an address leads to, whatever the code does: `path m r v k` is the table that
-- the first `k` entries for `v` lead to from the root `r`, and for `k = 4` the frame.
use aion_os.Prelude.{
  ℕ, zero, suc, ◌+◌, ◌-◌, ◌*◌, ◌/◌, ◌%◌, ◌^◌, ◌<◌, ◌≡◌, refl, ap, ◌∙◌, true, Option, none, some,
  arith, if◌then◌else◌,
}
use aion_os.Kernel.Memory.Vmm.{is_present, pte_addr, index_of, entry_at}

-- The table that entry `i` of a table points to.
unfoldable pub follow : (ℕ → ℕ) → ℕ → Option ℕ → Option ℕ
follow m i none = none
follow m i (some t) =
    if is_present (m (entry_at t i)) then some (pte_addr (m (entry_at t i))) else none

unfoldable pub path : (ℕ → ℕ) → ℕ → ℕ → ℕ → Option ℕ
unfolding follow
path m r v zero = some r
path m r v (suc k) = follow m (index_of v (4 - k)) (path m r v k)

-- The first `k` indices of `v`, as one number.
unfoldable pub prefix : ℕ → ℕ → ℕ
prefix v zero = 0
prefix v (suc k) = prefix v k * 512 + index_of v (4 - k)

-- A table lies on a page boundary, within the 52 bits of a physical address.
abbrev pub IsTable : ℕ → Type 0
IsTable t = (t % 4096 ≡ 0) × (t < 2 ^ 52)

pub index-lt : (v l : ℕ) → index_of v l < 512
unfolding index_of
index-lt v l = ground arith

-- Different entries have different addresses.
pub entry_at_inj :
    {t u i j : ℕ}
    → IsTable t
    → IsTable u
    → i < 512
    → j < 512
    → entry_at t i ≡ entry_at u j
    → (t ≡ u) × (i ≡ j)
unfolding entry_at
entry_at_inj ht hu hi hj e = (omega arith, omega arith)

pub pte_addr-IsTable : (e : ℕ) → IsTable (pte_addr e)
pte_addr-IsTable e = (omega arith, omega arith)

-- The prefix of four indices is the number of the page in the 48 bits of an address.
pub prefix_page : (v : ℕ) → prefix v 4 ≡ v / 2 ^ 12 % 2 ^ 36
unfolding prefix index_of
prefix_page v = omega arith

module _ (m : ℕ → ℕ) (i : ℕ) where
  pub follow_inv :
      (o : Option ℕ) {t : ℕ}
      → follow m i o ≡ some t
      → (u : ℕ) × (o ≡ some u)
        × (is_present (m (entry_at u i)) ≡ true)
        × (t ≡ pte_addr (m (entry_at u i)))
  unfolding follow
  follow_inv none e = absurd (cc)
  follow_inv (some u) e = (u, refl, ground arith, ground arith)

  pub follow_same :
      (m' : ℕ → ℕ) (o : Option ℕ)
      → ((t : ℕ) → o ≡ some t → m' (entry_at t i) ≡ m (entry_at t i))
      → follow m' i o ≡ follow m i o
  unfolding follow
  follow_same m' none same = refl
  follow_same m' (some t) same = rw (same t refl)

module _ (m : ℕ → ℕ) (r v k : ℕ) where
  -- One more step, where the path so far leads to a table, and where it does not.
  pub path_step :
      {t : ℕ}
      → path m r v k ≡ some t
      → path m r v (suc k) ≡ (
          if is_present (m (entry_at t (index_of v (4 - k))))
          then some (pte_addr (m (entry_at t (index_of v (4 - k)))))
          else none)
  unfolding path
  path_step e = ap (follow m (index_of v (4 - k))) e

  pub path_stop : path m r v k ≡ none → path m r v (suc k) ≡ none
  unfolding path
  path_stop e = ap (follow m (index_of v (4 - k))) e

pub path-none : (m : ℕ → ℕ) (r v n k : ℕ) → path m r v k ≡ none → path m r v (n + k) ≡ none
path-none m r v zero k e = ap (path m r v) (omega arith) ∙ e
path-none m r v (suc n) k e =
    ap (path m r v) (omega arith) ∙ path_stop m r v (n + k) (path-none m r v n k e)

pub path-IsTable :
    (m : ℕ → ℕ) {r : ℕ} → IsTable r → (v k : ℕ) {t : ℕ} → path m r v k ≡ some t → IsTable t
unfolding path
path-IsTable m root v zero e = ground arith
path-IsTable m {r} root v (suc k) e =
    let (u, at, p, q) = follow_inv m (index_of v (4 - k)) (path m r v k) e in
    ground (arith, pte_addr-IsTable (m (entry_at u (index_of v (4 - k)))))
