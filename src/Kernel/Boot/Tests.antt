-- ===== src/Kernel/Boot/Tests.antt =====
-- The start of the devices on a machine without PCI devices and with a screen of 64 by 48 pixels.
use aion_os.Prelude.{ℕ, ◌+◌, ◌≡◌, true, false, some, none, [], arith}
use aion_os.Kernel.Io.{Ports}
use aion_os.Kernel.Drivers.Display.Pixels.{Outside}
use aion_os.Kernel.Drivers.Display.Cursor.{HasCursor}
use aion_os.Kernel.Drivers.Pci.{absent}
use aion_os.Kernel.Boot.{AionBootInfo, Hardware, aion_magic, start_devices}
use aion_os.Kernel.Boot.Ready.{
  screen, camera_bytes, microphone_bytes, blank_frame, silence, start_devices-Started,
}

abbrev empty_bus : Ports ℕ
empty_bus = record {
  inb = λ port d. (0, d);
  outb = λ port v d. d;
  inl = λ port d. (absent, d);
  outl = λ port v d. v;
}

abbrev info : AionBootInfo
info = record {
  magic = aion_magic;
  mmap_addr = 0x8000;
  mmap_size = 48;
  mmap_desc_size = 48;
  fb_addr = 0x8000_0000;
  fb_width = 64;
  fb_height = 48;
  fb_pitch = 256;
  fb_format = 0;
}

abbrev hardware : Hardware ℕ
hardware = record {
  tables = record {
    entries = [];
    tss_rsp0 = 0;
    tss_iopb_offset = 0;
    gdtr_limit = 0;
    gdtr_base = 0;
    task_register = 0;
  };
  idt = λ v. record {
    offset_low = 0;
    selector = 0;
    ist = 0;
    type_attr = 0;
    offset_mid = 0;
    offset_high = 0;
    reserved = 0;
  };
  managers = record {
    vmm = record {
      words = λ a. 0;
      pmm = record { bitmap = λ i. 0; total_pages = 0; free_pages = 0 };
      kernel_pml4 = 0;
      cr3 = 0;
      flushed = [];
    };
    heap = record { heap_ptr = 0x20_0000; heap_end = 0x120_0000 };
    swap = record { active = true; capacity = 0; used = 0 };
    handlers = record { handler = λ v. none; ctx = λ v. 0 };
    devices = 0;
  };
  display = record {
    base = 0;
    width = 0;
    height = 0;
    pitch = 0;
    cursor_x = 0;
    cursor_y = 0;
    pixels = λ a. 0;
  };
  nvme = record { nvme_base = 0; total_sectors = 0 };
  fs = record { usb_ready = false; ssd_ready = false };
  audio = record { hda_base = 0; hda_ready = false; written = [] };
  camera = none;
  microphone = none;
  network = record { initialised = false; link_up = false; rx_bytes = 0; tx_bytes = 0 };
}

start_devices-Started_example :
    let t = start_devices empty_bus info hardware in
    (t.camera ≡ some blank_frame)
    × (t.microphone ≡ some silence)
    × (t.managers.heap
        ≡ record hardware.managers.heap { heap_ptr = 0x20_0000 + camera_bytes + microphone_bytes })
    × (t.fs ≡ record { usb_ready = true; ssd_ready = true })
    × ((a : ℕ) → Outside (screen info hardware) a → t.display.pixels a ≡ 0)
    × HasCursor t.display
start_devices-Started_example =
    start_devices-Started empty_bus info hardware
      (record { rows = omega arith; small = omega arith; below = omega arith }) (omega arith)
      (omega arith)
      (record {
        start = omega arith;
        order = omega arith;
        room = omega arith;
        aligned = omega arith;
      })
      (omega arith)
