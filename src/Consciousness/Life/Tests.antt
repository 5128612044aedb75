-- ===== src/Consciousness/Life/Tests.antt =====
-- A round of a life on a machine without senses, whose model says the letter a.
use aion_os.Prelude.{ℕ, ◌+◌, ◌≤◌, ◌≡◌, true, false, some, none, [], ◌∷◌, length, take}
use aion_os.Kernel.Drivers.Devices.{Fs}
use aion_os.Kernel.Memory.Pmm.{Pmm}
use aion_os.Kernel.Memory.Status.{memory_get_status}
use aion_os.Consciousness.Text.{Text}
use aion_os.Consciousness.Memory.{Store}
use aion_os.Consciousness.Senses.{World, FsInfo, capture_rest, no_camera}
use aion_os.Consciousness.Llm.{batch_tokens, Llama}
use aion_os.Consciousness.Life.{Machine, Life, sense_text}
use aion_os.Consciousness.Life.Signal.{signal, sense_text-signal}

record Host : Type 0 where
  screen : Text
  store : Store Fs

abbrev no_drive : FsInfo
no_drive = record {
  available = false;
  total_bytes = 0;
  free_bytes = 0;
  root_entry_count = 0;
  aion_memory_file_count = 0;
}

abbrev world : World
world = record {
  tsc = 9_000_000_000;
  cam = none;
  mic = none;
  net = record { initialised = false; link_up = false; rx_bytes = 0; tx_bytes = 0 };
  usb = no_drive;
  ssd = no_drive;
}

abbrev frames : Pmm
frames = record { bitmap = λ i. 255; total_pages = 1048576; free_pages = 100000 }

machine : Machine Fs Host
machine = record {
  world = λ w. world;
  pmm = λ w. frames;
  swap = λ w. record { active = false; capacity = 0; used = 0 };
  store = λ w. w.store;
  with_store = λ s w. record w { store = s };
}

llama : Llama ℕ
llama = record {
  load_model = true;
  new_context = some 0;
  tokenize = λ text bos k. some (take batch_tokens text);
  kv_cache_clear = λ k. k;
  decode = λ tokens k. (0, k + 1);
  sample = λ k. (b'a', k);
  is_eog = λ tok. false;
  to_piece = λ tok. some (tok ∷ []);
}

abbrev born : Life ℕ Host
born = record {
  tick = 0;
  senses = record { boot_tick = 0; ticks_per_ms = 3_000_000; prev_luma = 0 };
  llm = record { ctx = some 0; model = true; ready = true; context = 1 ∷ 2 ∷ []; msr = 4096 };
  act = record {
    results = [];
    world = record {
      screen = [];
      store = record {
        entries = [];
        mem_dirty = 0;
        store_exists = false;
        heap = record { heap_ptr = 0x20_0010; heap_end = 0x20_4000 };
        disk = record { usb_ready = true; ssd_ready = true };
      };
    };
  };
}

sense_text-signal_example :
    let status = memory_get_status frames (machine.swap born.act.world) in
    let snap = capture_rest world 0 false no_camera in
    (sense_text 1 snap status ≡ some (signal 1 snap status)) × (length (signal 1 snap status) ≤ 171)
sense_text-signal_example =
    sense_text-signal 1 (capture_rest world 0 false no_camera)
      (memory_get_status frames (machine.swap born.act.world))
