-- ===== src/Kernel/Boot.antt =====
-- The start of the machine, `kernel_main` of kernel/kernel.c, up to the point where consciousness
-- wakes. Of each line of the boot log the part on the screen is modelled here; `boot_text` is the
-- part on the serial port, which changes no state.
pub mod Ready
pub mod Log
mod Tests
use aion_os.Prelude.{
  ℕ, Bool, true, false, not, Option, none, some, List, [], ◌∷◌, ◌++◌, ◌==◌, if◌then◌else◌,
}
use aion_os.Consciousness.Text.{Text, codes}
use aion_os.Consciousness.Senses.{CamFrame, MicFrame, NetworkStatus}
use aion_os.Kernel.Io.{Ports}
use aion_os.Kernel.Arch.Gdt.{Tables, gdt_init}
use aion_os.Kernel.Arch.Idt.{Idt, idt_gates, idt_init_pic}
use aion_os.Kernel.Memory.Pmm.{EfiMemoryDescriptor}
use aion_os.Kernel.Memory.Kmalloc.{Heap}
use aion_os.Kernel.Memory.Setup.{Managers, memory_init}
use aion_os.Kernel.Drivers.Serial.{Arg, text, serial_init, serial_printf}
use aion_os.Kernel.Drivers.Display.{Display, display_init, display_print_boot_line}
use aion_os.Kernel.Drivers.Pci.{pci_init}
use aion_os.Kernel.Drivers.Audio.{Audio, audio_init}
use aion_os.Kernel.Drivers.Devices.{
  Nvme, nvme_init, network_init, usb_init, cam_init, mic_init, Fs, fs_init,
}

abbrev pub aion_magic : ℕ
aion_magic = 0x4149_4f4e

-- The fields that `kernel_main` reads.
pub record AionBootInfo : Type 0 where
  pub magic : ℕ
  pub mmap_addr : ℕ
  pub mmap_size : ℕ
  pub mmap_desc_size : ℕ
  pub fb_addr : ℕ
  pub fb_width : ℕ
  pub fb_height : ℕ
  pub fb_pitch : ℕ
  pub fb_format : ℕ

-- The static variables of the parts; the devices are in `managers`.
pub record Hardware (D : Type 0) : Type 0 where
  pub tables : Tables
  pub idt : Idt
  pub managers : Managers D
  pub display : Display
  pub nvme : Nvme
  pub fs : Fs
  pub audio : Audio
  pub camera : Option CamFrame
  pub microphone : Option MicFrame
  pub network : NetworkStatus

-- What `boot_log` sends to the serial port.
pub boot_text : Text → Text → Option Text
boot_text stage msg =
    serial_printf (codes "[boot] %-20s %s" ++ 10 ∷ []) (text stage ∷ text msg ∷ [])

-- Where the linker puts the stack, the task state and the tables, and the stubs of the interrupts.
pub record Layout : Type 0 where
  pub interrupt_stack : ℕ
  pub kernel_tss : ℕ
  pub gdt : ℕ
  pub isr_stub : ℕ → ℕ
  pub irq_stub : ℕ → ℕ

-- A stage of the start: its name, what it says first, and what it does.
pub record Stage (D : Type 0) : Type 0 where
  pub name : Text
  pub doing : Text
  pub start : Hardware D → Hardware D

module _ {D : Type 0} where
  pub boot_log : Text → Text → Hardware D → Hardware D
  boot_log stage msg h = record h { display = display_print_boot_line stage msg h.display }

  -- A stage between its two lines of the log.
  pub boot_stage : Stage D → Hardware D → Hardware D
  unfolding boot_log
  boot_stage s h = boot_log s.name (codes "ok") (s.start (boot_log s.name s.doing h))

  pub run_stages : List (Stage D) → Hardware D → Hardware D
  run_stages [] h = h
  run_stages (s ∷ rest) h = run_stages rest (boot_stage s h)

  pub on_devices : (D → D) → Hardware D → Hardware D
  on_devices f h = record h { managers = record h.managers { devices = f h.managers.devices } }

  pub with_heap : Heap → Hardware D → Hardware D
  with_heap heap h = record h { managers = record h.managers { heap = heap } }

  pub give_nvme : Nvme × D → Hardware D → Hardware D
  unfolding on_devices
  give_nvme (nvme, d) h = record (on_devices (λ old. d) h) { nvme = nvme }

  pub give_audio : Audio × D → Hardware D → Hardware D
  unfolding on_devices
  give_audio (audio, d) h = record (on_devices (λ old. d) h) { audio = audio }

  pub give_network : NetworkStatus × D → Hardware D → Hardware D
  unfolding on_devices
  give_network (network, d) h = record (on_devices (λ old. d) h) { network = network }

  pub give_camera : Option CamFrame × Heap → Hardware D → Hardware D
  unfolding with_heap
  give_camera (camera, heap) h = record (with_heap heap h) { camera = camera }

  pub give_microphone : Option MicFrame × Heap → Hardware D → Hardware D
  unfolding with_heap
  give_microphone (microphone, heap) h = record (with_heap heap h) { microphone = microphone }

  pub show_screen : AionBootInfo → Hardware D → Hardware D
  show_screen info h = record h {
    display =
        display_init info.fb_addr info.fb_width info.fb_height info.fb_pitch info.fb_format
          h.display;
  }

-- How `kernel_main` goes on: it waits forever, or wakes consciousness on the hardware.
pub data Start (D : Type 0) : Type 0 where
  halted : Start D
  waking : Option (Hardware D) → Start D

module _ {D : Type 0} (io : Ports D) where
  pub processor_stages : Layout → List (Stage D)
  unfolding on_devices
  processor_stages layout =
      record {
        name = codes "GDT";
        doing = codes "loading...";
        start = λ g. record g {
          tables = gdt_init layout.interrupt_stack layout.kernel_tss layout.gdt g.tables;
        };
      }
      ∷ record {
        name = codes "IDT";
        doing = codes "loading...";
        start = λ g. record (on_devices (idt_init_pic io) g) {
          idt = idt_gates layout.isr_stub layout.irq_stub g.idt;
        };
      }
      ∷ []

  -- The stages behind the display.
  pub driver_stages : List (Stage D)
  unfolding on_devices give_nvme give_audio give_camera give_microphone give_network
  driver_stages =
      record { name = codes "PCI"; doing = codes "scanning..."; start = on_devices (pci_init io) }
      ∷ record { name = codes "USB"; doing = codes "init..."; start = on_devices (usb_init io) }
      ∷ record {
        name = codes "NVMe";
        doing = codes "init...";
        start = λ g. give_nvme (nvme_init io g.nvme g.managers.devices) g;
      }
      ∷ record {
        name = codes "filesystem";
        doing = codes "mounting...";
        start = λ g. record g { fs = fs_init g.fs };
      }
      ∷ record {
        name = codes "audio";
        doing = codes "init...";
        start = λ g. give_audio (audio_init io g.audio g.managers.devices) g;
      }
      ∷ record {
        name = codes "camera";
        doing = codes "init...";
        start = λ g. give_camera (cam_init g.managers.heap g.camera) g;
      }
      ∷ record {
        name = codes "microphone";
        doing = codes "init...";
        start = λ g. give_microphone (mic_init g.managers.heap g.microphone) g;
      }
      ∷ record {
        name = codes "network";
        doing = codes "init...";
        start = λ g. give_network (network_init io g.network g.managers.devices) g;
      }
      ∷ record { name = codes "syscall"; doing = codes "init..."; start = λ g. g }
      ∷ record { name = codes "scheduler"; doing = codes "init..."; start = λ g. g }
      ∷ []

  -- The stages from the display on, behind the first line of its log.
  pub start_devices : AionBootInfo → Hardware D → Hardware D
  unfolding boot_log show_screen run_stages driver_stages
  start_devices info h =
      run_stages driver_stages (boot_log (codes "display") (codes "ok") (show_screen info h))

  -- The stages behind that of the memory.
  pub with_memory : AionBootInfo → Hardware D → Option (Managers D) → Option (Hardware D)
  unfolding boot_log start_devices
  with_memory info h none = none
  with_memory info h (some m) = some (
      start_devices info (
        boot_log (codes "display") (codes "init...")
          (boot_log (codes "memory") (codes "ok") (record h { managers = m }))))

  -- `handler` is the page fault handler on the devices. `none` is a fault in `memory_init`.
  pub start_hardware :
      (ℕ → ℕ → D → D)
      → (ℕ → EfiMemoryDescriptor)
      → Layout
      → AionBootInfo
      → Hardware D
      → Option (Hardware D)
  unfolding boot_log on_devices run_stages processor_stages with_memory
  start_hardware handler memory layout info h =
      let h1 =
        boot_log (codes "memory") (codes "initialising...")
          (run_stages (processor_stages layout) (on_devices (serial_init io) h)) in
      with_memory info h1 (
        memory_init io handler memory info.mmap_addr info.mmap_size info.mmap_desc_size h1.managers)

  -- `none` as boot information is NULL.
  pub kernel_main :
      (ℕ → ℕ → D → D)
      → (ℕ → EfiMemoryDescriptor)
      → Layout
      → Option AionBootInfo
      → Hardware D
      → Start D
  unfolding start_hardware
  kernel_main handler memory layout none h = halted
  kernel_main handler memory layout (some info) h =
      if not (info.magic == aion_magic)
      then halted
      else waking (start_hardware handler memory layout info h)
