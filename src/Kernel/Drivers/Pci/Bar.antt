-- ===== src/Kernel/Drivers/Pci/Bar.antt =====
-- `pci_get_bar` against the layout of a base address register.
use aion_os.Prelude.{ℕ, ◌+◌, ◌*◌, ◌/◌, ◌%◌, ◌^◌, ◌<◌, ◌≡◌, some, List, [], ◌∷◌, ◌++◌, arith}
use aion_os.Kernel.Drivers.Pci.{PciDevice, bar_value, pci_get_bar}

-- What a base address register describes.
pub data BarKind : Type 0 where
  io_ports : ℕ → BarKind
  memory32 : ℕ → ℕ → BarKind
  memory64 : ℕ → ℕ → BarKind

-- The registers that describe it: the address above the flag bits. `flags` are the four lowest bits
-- of a memory register, without the two of the type.
pub encode : BarKind → List ℕ
encode (io_ports a) = (a * 4 + 1) ∷ []
encode (memory32 a prefetch) = (a * 16 + prefetch * 8) ∷ []
encode (memory64 a prefetch) = (a % 2 ^ 28 * 16 + prefetch * 8 + 4) ∷ (a / 2 ^ 28) ∷ []

pub base_of : BarKind → ℕ
base_of (io_ports a) = a * 4
base_of (memory32 a prefetch) = a * 16
base_of (memory64 a prefetch) = a * 16

abbrev pub IsKind : BarKind → Type 0
IsKind (io_ports a) = Unit
IsKind (memory32 a prefetch) = prefetch < 2
IsKind (memory64 a prefetch) = prefetch < 2

-- The base address comes back from its registers, whatever registers follow: of ports, of 32-bit
-- memory, and of 64-bit memory, whose upper half is the next register.
pub pci_get_bar-encode :
    (k : BarKind) (rest : List ℕ) (dev : PciDevice)
    → IsKind k
    → dev.bar ≡ encode k ++ rest
    → pci_get_bar dev 0 ≡ some (base_of k)
unfolding pci_get_bar bar_value encode base_of
pci_get_bar-encode (io_ports a) rest dev h e = rw e (ground arith)
pci_get_bar-encode (memory32 a prefetch) rest dev h e = rw e (ground arith)
pci_get_bar-encode (memory64 a prefetch) rest dev h e = rw e (ground arith)
