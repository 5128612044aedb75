-- ===== src/Kernel/Drivers/Pci/Tests.antt =====
-- A configuration space with an audio controller in slot 3 of bus 0.
use aion_os.Prelude.{ℕ, refl, ◌==◌, if◌then◌else◌}
use aion_os.Kernel.Io.{Ports}
use aion_os.Kernel.Drivers.Pci.{absent, pci_find_class}
use aion_os.Kernel.Drivers.Pci.Config.{HasConfig}
use aion_os.Kernel.Drivers.Pci.Search.{FirstOf, class_device, pci_find_class-FirstOf}

abbrev registers : ℕ → ℕ
registers a =
    if a == 0x8000_1800 then 0x2668_8086 else if a == 0x8000_1808 then 0x0403_0001 else absent

-- The state is the address that was written last.
abbrev bridge : Ports ℕ
bridge = record {
  inb = λ port d. (0, d);
  outb = λ port v d. d;
  inl = λ port d. (registers d, d);
  outl = λ port v d. v;
}

bridge-HasConfig : HasConfig bridge (λ d. registers)
bridge-HasConfig = record { read = λ a d. refl; keeps = λ a d. refl }

pci_find_class-FirstOf_example :
    FirstOf (class_device registers 4 3) 8192 0 (pci_find_class bridge 4 3 0).0
pci_find_class-FirstOf_example = pci_find_class-FirstOf bridge-HasConfig 4 3 0
