-- ===== src/Kernel/Drivers/Pci/Config.antt =====
-- Reads of the configuration space.
use aion_os.Prelude.{
  ℕ, zero, suc, ◌+◌, ◌*◌, ◌/◌, ◌%◌, ◌^◌, ◌<◌, ◌≡◌, refl, ap, ap₂, ◌∙◌, List, [], ◌∷◌, arith, bit_or,
}
use aion_os.Prelude.Bits.{or_fields}
use aion_os.Kernel.Io.{Ports}
use aion_os.Kernel.Drivers.Pci.{
  pci_config_addr, pci_config_data, config_address, pci_read32, read_bars,
}

-- The fields of an address do not overlap, so different functions and registers have different
-- addresses.
pub config_address-fields :
    (bus slot func off : ℕ)
    → bus < 256
    → slot < 32
    → func < 8
    → off < 256
    → config_address bus slot func off
      ≡ 0x8000_0000 + bus * 2 ^ 16 + slot * 2 ^ 11 + func * 2 ^ 8 + off / 4 * 4
unfolding config_address
config_address-fields bus slot func off hb hs hf ho =
    ap (λ t. bit_or (bit_or (bit_or t (slot * 2 ^ 11)) (func * 2 ^ 8)) (off / 4 % 64 * 4))
      (or_fields 24 128 (bus * 2 ^ 16) (omega arith) ∙ omega arith)
    ∙ ap (λ t. bit_or (bit_or t (func * 2 ^ 8)) (off / 4 % 64 * 4))
        (or_fields 16 (2 ^ 15 + bus) (slot * 2 ^ 11) (omega arith) ∙ omega arith)
    ∙ ap (λ t. bit_or t (off / 4 % 64 * 4))
        (or_fields 11 (2 ^ 20 + bus * 32 + slot) (func * 2 ^ 8) (omega arith) ∙ omega arith)
    ∙ or_fields 8 (2 ^ 23 + bus * 256 + slot * 8 + func) (off / 4 % 64 * 4) (omega arith)
    ∙ omega arith

-- What the driver relies on: writing an address to 0xCF8 and reading 0xCFC returns the register at
-- that address and changes none.
pub record HasConfig {D : Type 0} (io : Ports D) (space : D → ℕ → ℕ) : Type 0 where
  pub read : (a : ℕ) (d : D) → (io.inl pci_config_data (io.outl pci_config_addr a d)).0 ≡ space d a
  pub keeps :
      (a : ℕ) (d : D) → space (io.inl pci_config_data (io.outl pci_config_addr a d)).1 ≡ space d

module _ {D : Type 0} {io : Ports D} {space : D → ℕ → ℕ} (config : HasConfig io space) where
  pub read32_value :
      (bus slot func off : ℕ) (d : D)
      → (pci_read32 io bus slot func off d).0 ≡ space d (config_address bus slot func off)
  unfolding pci_read32
  read32_value bus slot func off d = config.read (config_address bus slot func off) d

  pub read32_keeps :
      (bus slot func off : ℕ) (d : D) → space (pci_read32 io bus slot func off d).1 ≡ space d
  unfolding pci_read32
  read32_keeps bus slot func off d = config.keeps (config_address bus slot func off) d

-- The base address registers of function 0, as the space holds them.
pub bars_at : (ℕ → ℕ) → ℕ → ℕ → ℕ → ℕ → List ℕ
bars_at m zero b bus slot = []
bars_at m (suc n) b bus slot =
    m (config_address bus slot 0 (0x10 + b * 4)) ∷ bars_at m n (b + 1) bus slot

module _ {D : Type 0} {io : Ports D} {space : D → ℕ → ℕ} (config : HasConfig io space) where
  pub read_bars_lem :
      (n b bus slot : ℕ) (d : D)
      → ((read_bars io n b bus slot d).0 ≡ bars_at (space d) n b bus slot)
        × (space (read_bars io n b bus slot d).1 ≡ space d)
  unfolding read_bars bars_at
  read_bars_lem zero b bus slot d = (refl, refl)
  read_bars_lem (suc n) b bus slot d =
      let keep = read32_keeps config bus slot 0 (0x10 + b * 4) d in
      let rest = read_bars_lem n (b + 1) bus slot (pci_read32 io bus slot 0 (0x10 + b * 4) d).1 in
      (
        ap₂ (λ x xs. x ∷ xs) (read32_value config bus slot 0 (0x10 + b * 4) d)
            (rest.0 ∙ ap (λ m. bars_at m n (b + 1) bus slot) keep),
        rest.1 ∙ keep,
      )
