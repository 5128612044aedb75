-- ===== src/Kernel/Memory/Vmm/Fresh.antt =====
-- The entry for a frame, and the loop that clears a new table.
use aion_os.Prelude.{
  ℕ, zero, suc, ◌+◌, ◌*◌, ◌/◌, ◌%◌, ◌^◌, ◌≤◌, ◌<◌, ◌≡◌, ◌≢◌, refl, ap, ◌∙◌, true, inl, inr, arith,
  ◌==◌, Bool-cases, ==_iff, bit_or,
}
use aion_os.Prelude.Bits.{or_div, or_mod, bit_or-zero, or_odd}
use aion_os.Kernel.Memory.Bitmap.{write}
use aion_os.Kernel.Memory.Vmm.{
  is_present, pte_addr, pte_present, pte_writable, entry_at, zero_table,
}

-- `|` with bits outside of the address does not change the address.
pub pte_addr-or : (a b : ℕ) → b / 2 ^ 12 % 2 ^ 40 ≡ 0 → pte_addr (bit_or a b) ≡ pte_addr a
pte_addr-or a b e =
    ap (λ t. t % 2 ^ 40 * 2 ^ 12) (or_div 12 a b)
    ∙ ap (λ t. t * 2 ^ 12) (or_mod 40 (a / 2 ^ 12) (b / 2 ^ 12))
    ∙ ap (λ t. bit_or (a / 2 ^ 12 % 2 ^ 40) t * 2 ^ 12) e
    ∙ ap (λ t. t * 2 ^ 12) (bit_or-zero (a / 2 ^ 12 % 2 ^ 40))

pub present-or : (a b : ℕ) → is_present b ≡ true → is_present (bit_or a b) ≡ true
present-or a b e = ground (arith, or_odd a b)

-- The entry for a frame, `frame | PTE_PRESENT | PTE_WRITABLE`.
pub frame_present : (f : ℕ) → is_present (bit_or (bit_or f pte_present) pte_writable) ≡ true
frame_present f = ground (arith, or_odd (bit_or f pte_present) pte_writable, or_odd f pte_present)

pub frame_addr :
    (f : ℕ) → f % 4096 ≡ 0 → f < 2 ^ 52 → pte_addr (bit_or (bit_or f pte_present) pte_writable) ≡ f
frame_addr f aligned small =
    pte_addr-or (bit_or f pte_present) pte_writable refl
    ∙ pte_addr-or f pte_present refl
    ∙ omega arith

module _ (phys a : ℕ) where
  zero_table-zero : (n i : ℕ) (m : ℕ → ℕ) → m a ≡ 0 → zero_table n phys i m a ≡ 0
  unfolding zero_table
  zero_table-zero zero i m e = e
  zero_table-zero (suc n) i m e =
      zero_table-zero n (i + 1) (write m (entry_at phys i) 0) (ground arith)

  pub zero_table-other :
      (n i : ℕ) (m : ℕ → ℕ)
      → i + n ≤ 512
      → ((j : ℕ) → j < 512 → entry_at phys j ≢ a)
      → zero_table n phys i m a ≡ m a
  unfolding zero_table
  zero_table-other zero i m h other = refl
  zero_table-other (suc n) i m h other =
      zero_table-other n (i + 1) (write m (entry_at phys i) 0) (omega arith) other
      ∙ ground (arith, other i)

-- The cleared table reads as 0 everywhere.
pub zero_table-entry :
    (phys n i j : ℕ) (m : ℕ → ℕ) → i ≤ j → j < i + n → zero_table n phys i m (entry_at phys j) ≡ 0
unfolding zero_table
zero_table-entry phys zero i j m lo hi = absurd (omega arith)
zero_table-entry phys (suc n) i j m lo hi = elim (Bool-cases (i == j)) [
  | inl same ↦
      zero_table-zero phys (entry_at phys j) n (i + 1) (write m (entry_at phys i) 0)
        (ground (arith, ap (entry_at phys) ((==_iff i j).0 same)))
  | inr other ↦
      zero_table-entry phys n (i + 1) j (write m (entry_at phys i) 0) (ground arith) (ground arith)
]
