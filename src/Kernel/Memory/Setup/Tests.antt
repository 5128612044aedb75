-- ===== src/Kernel/Memory/Setup/Tests.antt =====
-- The start on a machine with one region of 8192 frames from 1 MB on.
use aion_os.Prelude.{ℕ, false, Option, some, none, []}
use aion_os.Kernel.Io.{Ports}
use aion_os.Kernel.Memory.Pmm.{EfiMemoryDescriptor, Pmm}
use aion_os.Kernel.Memory.Setup.{Managers}

abbrev map : ℕ → EfiMemoryDescriptor
map a = record { type = 7; phys_start = 0x10_0000; num_pages = 8192 }

-- Ports that nothing stands behind.
abbrev no_ports : Ports ℕ
no_ports = record {
  inb = λ port d. (0, d);
  outb = λ port v d. d;
  inl = λ port d. (0, d);
  outl = λ port v d. d;
}

abbrev powered : Managers ℕ
powered = record {
  vmm = record {
    words = λ a. 0;
    pmm = record { bitmap = λ i. 255; total_pages = 0; free_pages = 0 };
    kernel_pml4 = 0;
    cr3 = 0x1000;
    flushed = [];
  };
  heap = record { heap_ptr = 0; heap_end = 0 };
  swap = record { active = false; capacity = 0; used = 0 };
  handlers = record { handler = λ v. none; ctx = λ v. 0 };
  devices = 0;
}

total_of : Option Pmm → ℕ
total_of none = 0
total_of (some p) = p.total_pages
