-- ===== src/Kernel/Drivers/Pci.antt =====
-- The PCI configuration space of kernel/drivers/pci/pci.c: accesses by the ports 0xCF8 and 0xCFC,
-- the search for a device, its base address registers and bus mastering.
pub mod Config
pub mod Search
pub mod Bar
mod Tests
use aion_os.Prelude.{
  ℕ, zero, suc, ◌+◌, ◌-◌, ◌*◌, ◌/◌, ◌%◌, ◌^◌, Bool, true, false, ◌&&◌, Option, none, some, List, [],
  ◌∷◌, ltb, ◌==◌, if◌then◌else◌, bit_or, get_elem?,
}
use aion_os.Kernel.Io.{Ports}

abbrev pub pci_config_addr : ℕ
pci_config_addr = 0xcf8

abbrev pub pci_config_data : ℕ
pci_config_data = 0xcfc

-- What a read of a function that is not there returns.
abbrev pub absent : ℕ
absent = 0xffff_ffff

-- The fields `class_` and `subclass` are never written.
pub record PciDevice : Type 0 where
  pub vendor : ℕ
  pub device : ℕ
  pub bus : ℕ
  pub slot : ℕ
  pub func : ℕ
  pub bar : List ℕ
  pub irq : ℕ

-- `0x80000000|(bus<<16)|(slot<<11)|(func<<8)|(off&0xFC)`
pub config_address : ℕ → ℕ → ℕ → ℕ → ℕ
config_address bus slot func off =
    bit_or (bit_or (bit_or (bit_or 0x8000_0000 (bus * 2 ^ 16)) (slot * 2 ^ 11)) (func * 2 ^ 8))
      (off / 4 % 64 * 4)

-- `(id&0xFFFF)` and `id>>16`
abbrev pub vendor_of : ℕ → ℕ
vendor_of id = id % 2 ^ 16

abbrev pub device_of : ℕ → ℕ
device_of id = id / 2 ^ 16 % 2 ^ 16

-- `((cc>>24)&0xFF)` and `((cc>>16)&0xFF)`
abbrev pub class_of : ℕ → ℕ
class_of cc = cc / 2 ^ 24 % 2 ^ 8

abbrev pub subclass_of : ℕ → ℕ
subclass_of cc = cc / 2 ^ 16 % 2 ^ 8

module _ {D : Type 0} (io : Ports D) where
  pub pci_read32 : ℕ → ℕ → ℕ → ℕ → D → ℕ × D
  pci_read32 bus slot func off d =
      io.inl pci_config_data (io.outl pci_config_addr (config_address bus slot func off) d)

  pub pci_write32 : ℕ → ℕ → ℕ → ℕ → ℕ → D → D
  pci_write32 bus slot func off v d =
      io.outl pci_config_data v (io.outl pci_config_addr (config_address bus slot func off) d)

  -- The six reads of base address registers, with the rounds left, from register `b` on.
  pub read_bars : ℕ → ℕ → ℕ → ℕ → D → List ℕ × D
  read_bars zero b bus slot d = ([], d)
  read_bars (suc n) b bus slot d =
      let (v, d') = pci_read32 bus slot 0 (0x10 + b * 4) d in
      let (vs, d'') = read_bars n (b + 1) bus slot d' in (v ∷ vs, d'')

  -- What `pci_find_class` fills in for the function that it finds.
  pub found_class : ℕ → ℕ → ℕ → D → PciDevice × D
  found_class bus slot id d =
      let (bars, d') = read_bars 6 0 bus slot d in
      let (irq, d'') = pci_read32 bus slot 0 0x3c d' in
      (
        record {
          vendor = vendor_of id;
          device = device_of id;
          bus = bus;
          slot = slot;
          func = 0;
          bar = bars;
          irq = irq % 2 ^ 8;
        },
        d'',
      )

  pub some_device : PciDevice × D → Option PciDevice × D
  some_device (dev, d) = (some dev, d)

  -- The body of the loops of `pci_find_class` behind the first test, with the class register.
  pub probe_present : ℕ → ℕ → ℕ → ℕ → ℕ → ℕ × D → Option PciDevice × D
  unfolding found_class some_device
  probe_present class subclass bus slot id (cc, d) =
      if class_of cc == class && subclass_of cc == subclass
      then some_device (found_class bus slot id d)
      else (none, d)

  -- The body, with the identification; `none` is `continue` and the end of the body.
  pub probe_at : ℕ → ℕ → ℕ → ℕ → ℕ × D → Option PciDevice × D
  unfolding probe_present
  probe_at class subclass bus slot (id, d) =
      if id == absent
      then (none, d)
      else probe_present class subclass bus slot id (pci_read32 bus slot 0 8 d)

  pub probe_class : ℕ → ℕ → ℕ → ℕ → D → Option PciDevice × D
  unfolding probe_at
  probe_class class subclass bus slot d =
      probe_at class subclass bus slot (pci_read32 bus slot 0 0 d)

  -- The body of the loops of `pci_find_device`. `out->irq` keeps what the caller left in it.
  pub probe_id : ℕ → ℕ → ℕ → ℕ → ℕ → D → Option PciDevice × D
  probe_id irq vendor device bus slot d =
      let (id, d1) = pci_read32 bus slot 0 0 d in
      if vendor_of id == vendor && device_of id == device
      then (let (bars, d2) = read_bars 6 0 bus slot d1 in
          (
            some (record {
              vendor = vendor;
              device = device;
              bus = bus;
              slot = slot;
              func = 0;
              bar = bars;
              irq = irq;
            }),
            d2,
          ))
      else (none, d1)

  pub or_go_on : (D → Option PciDevice × D) → Option PciDevice × D → Option PciDevice × D
  or_go_on next (some dev, d) = (some dev, d)
  or_go_on next (none, d) = next d

  -- The two loops, `for bus` and `for slot`, as one over 32 * bus + slot, with the rounds left. The
  -- first device that the body finds ends them.
  pub scan : (ℕ → ℕ → D → Option PciDevice × D) → ℕ → ℕ → D → Option PciDevice × D
  unfolding or_go_on
  scan probe zero i d = (none, d)
  scan probe (suc n) i d = or_go_on (λ d'. scan probe n (i + 1) d') (probe (i / 32) (i % 32) d)

  -- `none` is the result -1.
  pub pci_find_class : ℕ → ℕ → D → Option PciDevice × D
  pci_find_class class subclass d = scan (probe_class class subclass) 8192 0 d

  pub pci_find_device : ℕ → ℕ → ℕ → D → Option PciDevice × D
  pci_find_device irq vendor device d = scan (probe_id irq vendor device) 8192 0 d

  -- `probe_device` without the line that it logs.
  pub probe_device : ℕ → ℕ → ℕ → D → D
  probe_device bus slot func d =
      let (id, d1) = pci_read32 bus slot func 0 d in
      if id == absent then d1 else (pci_read32 bus slot func 8 d1).1

  pub init_scan : ℕ → ℕ → D → D
  init_scan zero i d = d
  init_scan (suc n) i d = init_scan n (i + 1) (probe_device (i / 32) (i % 32) 0 d)

  pub pci_init : D → D
  pci_init d = init_scan 8192 0 d

  pub pci_enable_bus_master : PciDevice → D → D
  pci_enable_bus_master dev d =
      let (cmd, d') = pci_read32 dev.bus dev.slot dev.func 4 d in
      pci_write32 dev.bus dev.slot dev.func 4 (bit_or cmd 0x07) d'

-- `none` is a read behind `bar`.
pub bar_value : Option ℕ → Option ℕ → Option ℕ
bar_value none next = none
bar_value (some lo) next =
    if lo % 2 == 1
    then some (lo / 4 * 4)
    else if lo / 2 % 4 == 2
    then elim next [ none ↦ none | some hi ↦ some (lo / 16 * 16 + hi * 2 ^ 32) ]
    else some (lo / 16 * 16)

-- `lo` has 32 bits, so that `|` joins fields that do not overlap.
pub pci_get_bar : PciDevice → ℕ → Option ℕ
unfolding bar_value
pci_get_bar dev idx = bar_value (get_elem? dev.bar idx) (get_elem? dev.bar (idx + 1))
