-- ===== src/Kernel/Drivers/Pci/Search.antt =====
-- `pci_find_class` finds the first function 0 with the class, in the order of buses and slots.
use mathlib.Core.Path.{subst}
use aion_os.Prelude.{
  ℕ, zero, suc, ◌+◌, ◌/◌, ◌%◌, ◌^◌, ◌≤◌, ◌<◌, ◌≡◌, refl, ap, ap₂, sym, List, ◌∙◌, Bool, false, ◌&&◌,
  not, Option, none, some, inl, inr, arith, ◌==◌, if◌then◌else◌, Bool-cases, ==_iff,
}
use aion_os.Kernel.Io.{Ports}
use aion_os.Kernel.Drivers.Pci.{
  PciDevice, absent, vendor_of, device_of, class_of, subclass_of, config_address, found_class,
  probe_class, probe_at, probe_present, some_device, or_go_on, read_bars, pci_read32, scan,
  pci_find_class,
}
use aion_os.Kernel.Drivers.Pci.Config.{
  HasConfig, read32_value, read32_keeps, bars_at, read_bars_lem,
}

-- The first of the `n` numbers from `i` on at which `p` finds something.
pub data FirstOf {A : Type 0} (p : ℕ → Option A) (n i : ℕ) : Option A → Type 0 where
  hit :
      (k : ℕ) {a : A}
      → i ≤ k
      → k < i + n
      → p k ≡ some a
      → ((j : ℕ) → i ≤ j → j < k → p j ≡ none)
      → FirstOf p n i (some a)
  miss : ((j : ℕ) → i ≤ j → j < i + n → p j ≡ none) → FirstOf p n i none

-- The function at number 32 * bus + slot has the class.
pub has_class : (ℕ → ℕ) → ℕ → ℕ → ℕ → Bool
has_class m class subclass i =
    let id = m (config_address (i / 32) (i % 32) 0 0) in
    let cc = m (config_address (i / 32) (i % 32) 0 8) in
    not (id == absent) && (class_of cc == class && subclass_of cc == subclass)

-- Its registers, as the driver hands them out.
pub device_at : (ℕ → ℕ) → ℕ → PciDevice
device_at m i =
    let id = m (config_address (i / 32) (i % 32) 0 0) in
    record {
      vendor = vendor_of id;
      device = device_of id;
      bus = i / 32;
      slot = i % 32;
      func = 0;
      bar = bars_at m 6 0 (i / 32) (i % 32);
      irq = m (config_address (i / 32) (i % 32) 0 0x3c) % 2 ^ 8;
    }

abbrev pub class_device : (ℕ → ℕ) → ℕ → ℕ → ℕ → Option PciDevice
class_device m class subclass i =
    if has_class m class subclass i then some (device_at m i) else none

widen :
    {A : Type 0} (p : ℕ → Option A) (n i : ℕ) (o : Option A)
    → p i ≡ none
    → FirstOf p n (i + 1) o
    → FirstOf p (suc n) i o
widen p n i (some a) skip (hit k lo hi at before) =
    hit k (omega arith) (omega arith) at λ j lo' hi'. elim (Bool-cases (i == j)) [
      | inl same ↦ ap p (sym ((==_iff i j).0 same)) ∙ skip
      | inr other ↦ before j (ground arith) hi'
    ]
widen p n i none skip (miss all) = miss λ j lo hi. elim (Bool-cases (i == j)) [
  | inl same ↦ ap p (sym ((==_iff i j).0 same)) ∙ skip
  | inr other ↦ all j (ground arith) (omega arith)
]

module _ {D : Type 0} {io : Ports D} {space : D → ℕ → ℕ} (config : HasConfig io space) where
  go_on :
      {p : ℕ → Option PciDevice} (n i : ℕ) (d : D) (next : D → Option PciDevice × D)
      (res : Option PciDevice × D)
      → res.0 ≡ p i
      → FirstOf p n (i + 1) (next res.1).0
      → FirstOf p (suc n) i (or_go_on io next res).0
  unfolding or_go_on
  go_on n i d next (some dev, d') at rest =
      hit i (omega arith) (omega arith) (sym at) λ j lo hi. absurd (omega arith)
  go_on {p} n i d next (none, d') at rest = widen p n i (next d').0 (sym at) rest

  -- A loop whose body is `p` on the space, and keeps the space.
  scan-FirstOf :
      (probe : ℕ → ℕ → D → Option PciDevice × D) (p : (ℕ → ℕ) → ℕ → Option PciDevice)
      → ((i : ℕ) (d : D)
          → ((probe (i / 32) (i % 32) d).0 ≡ p (space d) i)
            × (space (probe (i / 32) (i % 32) d).1 ≡ space d))
      → (n i : ℕ) (d : D) → FirstOf (p (space d)) n i (scan io probe n i d).0
  unfolding scan
  scan-FirstOf probe p body zero i d = miss λ j lo hi. absurd (omega arith)
  scan-FirstOf probe p body (suc n) i d =
      let d' : D = (probe (i / 32) (i % 32) d).1 in
      go_on n i d (λ d''. scan io probe n (i + 1) d'') (probe (i / 32) (i % 32) d) (body i d).0
        (subst (λ m. FirstOf (p m) n (i + 1) (scan io probe n (i + 1) d').0) (body i d).1
          (scan-FirstOf probe p body n (i + 1) d'))

  found_class_lem :
      (m : ℕ → ℕ) (i : ℕ) (d : D)
      → space d ≡ m
      → let id = m (config_address (i / 32) (i % 32) 0 0) in
        ((found_class io (i / 32) (i % 32) id d).0 ≡ device_at m i)
        × (space (found_class io (i / 32) (i % 32) id d).1 ≡ m)
  unfolding found_class device_at
  found_class_lem m i d e =
      let id : ℕ = m (config_address (i / 32) (i % 32) 0 0) in
      let bars = read_bars_lem config 6 0 (i / 32) (i % 32) d in
      let d' : D = (read_bars io 6 0 (i / 32) (i % 32) d).1 in
      let keep = read32_keeps config (i / 32) (i % 32) 0 0x3c d' in
      let irq = read32_value config (i / 32) (i % 32) 0 0x3c d' in
      let same : space d' ≡ m = bars.1 ∙ e in
      (
        ap₂ (λ (b : List ℕ) (q : ℕ). device id i b q)
            (bars.0 ∙ ap (λ x. bars_at x 6 0 (i / 32) (i % 32)) e)
            (irq ∙ ap (λ x. x (config_address (i / 32) (i % 32) 0 0x3c)) same),
        keep ∙ same,
      )
    where
      device : ℕ → ℕ → List ℕ → ℕ → PciDevice
      device id i b q = record {
        vendor = vendor_of id;
        device = device_of id;
        bus = i / 32;
        slot = i % 32;
        func = 0;
        bar = b;
        irq = q % 2 ^ 8;
      }

  module _ (class subclass : ℕ) (m : ℕ → ℕ) (i : ℕ) where
    -- What the body of the loops shall return, and the space shall stay.
    Probes : Option PciDevice × D → Type 0
    Probes res = (res.0 ≡ class_device m class subclass i) × (space res.1 ≡ m)

    probe_present-Probes :
        (res : ℕ × D)
        → (m (config_address (i / 32) (i % 32) 0 0) == absent) ≡ false
        → res.0 ≡ m (config_address (i / 32) (i % 32) 0 8)
        → space res.1 ≡ m
        → Probes (
            probe_present io class subclass
              (i / 32)
              (i % 32)
              (m (config_address (i / 32) (i % 32) 0 0))
              res)
    unfolding probe_present some_device Probes has_class
    probe_present-Probes (reg, d) there value keep =
        let c8 : ℕ = m (config_address (i / 32) (i % 32) 0 8) in
        let found = found_class_lem m i d keep in
        elim (Bool-cases (class_of c8 == class && subclass_of c8 == subclass)) [
          | inl same_class ↦
              rw (value, there, same_class, probe_present, has_class)
                (ap (λ x. some x) found.0, found.1)
          | inr other ↦ rw (value, there, other, probe_present, has_class) (refl, keep)
        ]

    go_past :
        (m (config_address (i / 32) (i % 32) 0 0) == absent) ≡ false
        → (d : D)
        → probe_at io class subclass (i / 32) (i % 32) (m (config_address (i / 32) (i % 32) 0 0), d)
          ≡ probe_present io class subclass
              (i / 32)
              (i % 32)
              (m (config_address (i / 32) (i % 32) 0 0))
              (pci_read32 io (i / 32) (i % 32) 0 8 d)
    unfolding probe_at
    go_past there d = rw there

    probe_at-Probes :
        (res : ℕ × D)
        → res.0 ≡ m (config_address (i / 32) (i % 32) 0 0)
        → space res.1 ≡ m
        → Probes (probe_at io class subclass (i / 32) (i % 32) res)
    unfolding probe_at Probes has_class
    probe_at-Probes (id, d) value keep =
        elim (Bool-cases (m (config_address (i / 32) (i % 32) 0 0) == absent)) [
          | inl gone ↦ rw (value, gone, probe_at, has_class) (refl, keep)
          | inr there ↦
              subst Probes
                (sym (
                  ap (λ x. probe_at io class subclass (i / 32) (i % 32) (x, d)) value
                  ∙ go_past there d))
                (probe_present-Probes (pci_read32 io (i / 32) (i % 32) 0 8 d) there
                  (read32_value config (i / 32) (i % 32) 0 8 d
                    ∙ ap (λ x. x (config_address (i / 32) (i % 32) 0 8)) keep)
                  (read32_keeps config (i / 32) (i % 32) 0 8 d ∙ keep))
        ]

  -- When the two ports give access to the configuration space, the search covers the 256 buses with 32 slots each. It returns the first function 0 that is
  -- there and has the class, with its registers, and -1 only when there is none.
  pub pci_find_class-FirstOf :
      (class subclass : ℕ) (d : D)
      → FirstOf
          (class_device (space d) class subclass)
          8192
          0
          (pci_find_class io class subclass d).0
  unfolding pci_find_class probe_class Probes
  pci_find_class-FirstOf class subclass d =
      scan-FirstOf (probe_class io class subclass) (λ m i. class_device m class subclass i)
        (λ i e.
          probe_at-Probes class subclass (space e) i (pci_read32 io (i / 32) (i % 32) 0 0 e)
            (read32_value config (i / 32) (i % 32) 0 0 e)
            (read32_keeps config (i / 32) (i % 32) 0 0 e))
        8192 0 d
