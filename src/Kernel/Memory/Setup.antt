-- ===== src/Kernel/Memory/Setup.antt =====
-- `memory_init` of kernel/memory/memory.c, which starts the four managers one after the other.
pub mod Ready
mod Tests
use aion_os.Prelude.{ℕ, Option, none, some}
use aion_os.Kernel.Io.{Ports}
use aion_os.Kernel.Arch.Idt.{UserHandlers}
use aion_os.Kernel.Memory.Pmm.{EfiMemoryDescriptor, Pmm, pmm_init}
use aion_os.Kernel.Memory.Kmalloc.{Heap, kmalloc_init}
use aion_os.Kernel.Memory.Vmm.{Vmm, vmm_init}
use aion_os.Kernel.Memory.Swap.{Swap, swap_init}

-- The static variables of the file, the handlers that are registered, and the devices.
pub record Managers (D : Type 0) : Type 0 where
  pub vmm : Vmm
  pub heap : Heap
  pub swap : Swap
  pub handlers : UserHandlers D
  pub devices : D

-- The heap has its frames from the frame manager that the page tables use.
pub give_heap : {D : Type 0} → Pmm × Heap → Managers D → Managers D
give_heap (pmm, heap) s = record s { vmm = record s.vmm { pmm = pmm }; heap = heap }

pub give_swap : {D : Type 0} → UserHandlers D × D × Swap → Managers D → Managers D
give_swap (handlers, devices, swap) s = record s {
  handlers = handlers;
  devices = devices;
  swap = swap;
}

module _ {D : Type 0} (io : Ports D) (handler : ℕ → ℕ → D → D) where
  -- What follows on `pmm_init`.
  pub start_managers : Pmm → Managers D → Managers D
  unfolding give_heap give_swap
  start_managers pmm s =
      let paged : Managers D = record s { vmm = vmm_init (record s.vmm { pmm = pmm }) } in
      let t = give_heap (kmalloc_init paged.vmm.pmm paged.heap) paged in
      give_swap (swap_init io handler t.handlers t.devices t.swap) t

  -- `none` is the fault of a division by a descriptor size of 0.
  pub on_frames : Option Pmm → Managers D → Option (Managers D)
  unfolding start_managers
  on_frames none s = none
  on_frames (some pmm) s = some (start_managers pmm s)

  pub memory_init : (ℕ → EfiMemoryDescriptor) → ℕ → ℕ → ℕ → Managers D → Option (Managers D)
  unfolding on_frames
  memory_init memory mmap_addr mmap_size desc_size s =
      on_frames (pmm_init memory mmap_addr mmap_size desc_size s.vmm.pmm) s
