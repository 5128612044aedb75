-- ===== src/Kernel/Drivers/Devices.antt =====
-- The remaining drivers of kernel/drivers, the file system of kernel/fs/fs.c and the scheduler of
-- kernel/process/scheduler.c. Most of their operations are placeholders that the source marks so.
use aion_os.Prelude.{ℕ, ◌*◌, ◌/◌, Bool, true, false, Option, none, some, ◌==◌, if◌then◌else◌}
use aion_os.Kernel.Io.{Ports}
use aion_os.Kernel.Memory.Kmalloc.{Heap, kmalloc}
use aion_os.Kernel.Drivers.Pci.{PciDevice, pci_find_class, pci_enable_bus_master, pci_get_bar}
use aion_os.Consciousness.Memory.Disk.{Files}
use aion_os.Consciousness.Senses.{CamFrame, MicFrame, NetworkStatus, FsInfo}

-- nvme.c: `nvme_base` and `total_sectors_val`.
pub record Nvme : Type 0 where
  pub nvme_base : ℕ
  pub total_sectors : ℕ

pub nvme_at : Option ℕ → Nvme → Nvme
nvme_at none s = s
nvme_at (some bar) s = record s { nvme_base = bar; total_sectors = 1024 * 1024 * 1024 * 500 / 512 }

pub nvme_found : {D : Type 0} → Ports D → Option PciDevice × D → Nvme → Nvme × D
unfolding nvme_at
nvme_found io (none, d) s = (s, d)
nvme_found io (some pci, d) s = (nvme_at (pci_get_bar pci 0) s, pci_enable_bus_master io pci d)

pub nvme_init : {D : Type 0} → Ports D → Nvme → D → Nvme × D
unfolding nvme_found
nvme_init io s d = nvme_found io (pci_find_class io 0x01 0x08 d) s

pub nvme_total_sectors : Nvme → ℕ
nvme_total_sectors s = s.total_sectors

-- network.c: `net_status`. The link is taken to be up.
pub network_found :
    {D : Type 0} → Ports D → Option PciDevice × D → NetworkStatus → NetworkStatus × D
network_found io (none, d) s = (s, d)
network_found io (some pci, d) s =
    (record s { initialised = true; link_up = true }, pci_enable_bus_master io pci d)

pub network_init : {D : Type 0} → Ports D → NetworkStatus → D → NetworkStatus × D
unfolding network_found
network_init io s d = network_found io (pci_find_class io 0x02 0x00 d) s

-- usb.c
pub usb_found : {D : Type 0} → Ports D → Option PciDevice × D → D
usb_found io (none, d) = d
usb_found io (some pci, d) = pci_enable_bus_master io pci d

pub usb_init : {D : Type 0} → Ports D → D → D
unfolding usb_found
usb_init io d = usb_found io (pci_find_class io 0x0c 0x03 d)

-- cam.c: `current_frame`, absent while `cam_ready` is false. The buffer is filled with the byte 128.
abbrev pub cam_width : ℕ
cam_width = 320

abbrev pub cam_height : ℕ
cam_height = 240

unfoldable pub cam_at : ℕ × Heap → Option CamFrame → Option CamFrame × Heap
cam_at (p, h) old =
    if p == 0
    then (old, h)
    else (some (record { width = cam_width; height = cam_height; bytes = λ i. 128 }), h)

unfoldable pub cam_init : Heap → Option CamFrame → Option CamFrame × Heap
unfolding cam_at
cam_init h old = cam_at (kmalloc (cam_width * cam_height * 2) h) old

pub cam_get_latest_frame : Option CamFrame → Option CamFrame
cam_get_latest_frame frame = frame

-- mic.c: the same for the microphone, with silence.
unfoldable pub mic_at : ℕ × Heap → Option MicFrame → Option MicFrame × Heap
mic_at (p, h) old = if p == 0 then (old, h) else (
  some (record { sample_rate = 16000; channels = 1; sample_count = 4096; samples = λ i. 0 }),
  h,
)

unfoldable pub mic_init : Heap → Option MicFrame → Option MicFrame × Heap
unfolding mic_at
mic_init h old = mic_at (kmalloc (4096 * 2) h) old

pub mic_get_latest_frame : Option MicFrame → Option MicFrame
mic_get_latest_frame frame = frame

-- fs.c: `fs_usb_ready` and `fs_ssd_ready`.
pub record Fs : Type 0 where
  pub usb_ready : Bool
  pub ssd_ready : Bool

unfoldable pub fs_init : Fs → Fs
fs_init s = record { usb_ready = true; ssd_ready = true }

-- Reading and writing fail, no file exists, and `fs_mkdir_usb` does nothing.
unfoldable pub fs_files : Files Fs
fs_files = record {
  fs_read_file = λ path buf_sz s. none;
  fs_write_file_usb = λ path content s. s;
  fs_file_exists = λ path s. false;
  fs_mkdir_usb = λ path s. s;
}

pub fs_get_info_usb : Fs → FsInfo
fs_get_info_usb s = record {
  available = s.usb_ready;
  total_bytes = 128 * 1024 * 1024 * 1024;
  free_bytes = 100 * 1024 * 1024 * 1024;
  root_entry_count = 0;
  aion_memory_file_count = 0;
}

pub fs_get_info_ssd : Fs → FsInfo
fs_get_info_ssd s = record {
  available = s.ssd_ready;
  total_bytes = 500 * 1024 * 1024 * 1024;
  free_bytes = 300 * 1024 * 1024 * 1024;
  root_entry_count = 16;
  aion_memory_file_count = 0;
}

-- scheduler.c: the entry is called at once, and the identifier is 0.
pub scheduler_spawn : {M : Type 0} → (M → M) → ℕ → M → ℕ × M
scheduler_spawn entry priority m = (0, entry m)
