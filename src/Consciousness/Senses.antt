-- ===== src/Consciousness/Senses.antt =====
-- The snapshot of the senses, consciousness/senses/senses.c.
pub mod Root
pub mod Loudness
mod Tests
use aion_os.Prelude.{
  ℕ, zero, suc, ◌+◌, ◌-◌, ◌*◌, ◌/◌, ◌%◌, ◌^◌, Bool, true, false, Option, none, some, ltb, leb, ◌==◌,
  if◌then◌else◌,
}
use aion_os.Prelude.Words.{sub64, add64}

-- The frames of kernel/drivers/cam/cam.h and mic/mic.h. `data` of the source is what lies at the
-- frame's address: bytes for the camera, `int16_t` patterns for the microphone.
pub record CamFrame : Type 0 where
  pub width : ℕ
  pub height : ℕ
  pub bytes : ℕ → ℕ

pub record MicFrame : Type 0 where
  pub sample_rate : ℕ
  pub channels : ℕ
  pub sample_count : ℕ
  pub samples : ℕ → ℕ

pub record NetworkStatus : Type 0 where
  pub initialised : Bool
  pub link_up : Bool
  pub rx_bytes : ℕ
  pub tx_bytes : ℕ

pub record FsInfo : Type 0 where
  pub available : Bool
  pub total_bytes : ℕ
  pub free_bytes : ℕ
  pub root_entry_count : ℕ
  pub aion_memory_file_count : ℕ

-- What a capture reads: the time stamp counter and the results of the drivers' calls.
pub record World : Type 0 where
  pub tsc : ℕ
  pub cam : Option CamFrame
  pub mic : Option MicFrame
  pub net : NetworkStatus
  pub usb : FsInfo
  pub ssd : FsInfo

pub record CameraSnap : Type 0 where
  pub width : ℕ
  pub height : ℕ
  pub mean_luma : ℕ
  pub motion_delta : ℕ

pub record MicSnap : Type 0 where
  pub sample_rate : ℕ
  pub channels : ℕ
  pub amplitude_rms : ℕ
  pub freq_peak_hz : ℕ
  pub is_silence : Bool

pub record NetSnap : Type 0 where
  pub connected : Bool
  pub rx_total : ℕ
  pub tx_total : ℕ

pub record DiskSnap : Type 0 where
  pub total_gb : ℕ
  pub free_gb : ℕ
  pub count : ℕ

-- A device that is not available leaves its part zeroed.
pub record SenseSnapshot : Type 0 where
  pub uptime_ms : ℕ
  pub camera_available : Bool
  pub camera_frame : CameraSnap
  pub mic_available : Bool
  pub mic_frame : MicSnap
  pub network_available : Bool
  pub network : NetSnap
  pub usb_fs : DiskSnap
  pub host_ssd_available : Bool
  pub host_ssd : DiskSnap

-- The static variables.
pub record Senses : Type 0 where
  pub boot_tick : ℕ
  pub ticks_per_ms : ℕ
  pub prev_luma : ℕ

pub get_uptime_ms : ℕ → Senses → ℕ
get_uptime_ms tsc s = tsc / s.ticks_per_ms

pub senses_init : ℕ → Senses → Senses
unfolding get_uptime_ms
senses_init tsc s =
    let s' = record s { ticks_per_ms = 2000000 } in record s' { boot_tick = get_uptime_ms tsc s' }

-- The sum of `f` over the first `n` indices.
pub sum_below : ℕ → (ℕ → ℕ) → ℕ
sum_below zero f = 0
sum_below (suc n) f = sum_below n f + f n

-- The number of bytes of the first plane that are summed.
abbrev pub luma_count : CamFrame → ℕ
luma_count frame =
    let pixels = frame.width * frame.height % 2 ^ 32 in if ltb pixels 10000 then pixels else 10000

-- The camera's part of a capture, after `frame` was found. `none` is the fault of a division by 0.
pub capture_camera : CamFrame → ℕ → Option CameraSnap
capture_camera frame prev_luma =
    let n = luma_count frame in
    if n == 0
    then none
    else let mean_luma = sum_below n frame.bytes / n % 256 in
      let delta =
        if ltb mean_luma prev_luma then prev_luma - mean_luma else mean_luma - prev_luma in
      some (record {
        width = frame.width;
        height = frame.height;
        mean_luma = mean_luma;
        motion_delta = delta % 256;
      })

-- `(uint64_t)(sample * sample)` of an `int16_t` pattern.
abbrev pub square : ℕ → ℕ
square sample = if ltb sample 32768 then sample * sample else (65536 - sample) * (65536 - sample)

-- `while (bit > x) bit >>= 2`, at most 16 times.
pub shrink : ℕ → ℕ → ℕ → ℕ
shrink zero x bit = bit
shrink (suc fuel) x bit = if ltb x bit then shrink fuel x (bit / 4) else bit

-- `while (bit)` of the square root, at most 16 times.
pub root_loop : ℕ → ℕ → ℕ → ℕ → ℕ
root_loop zero x r bit = r
root_loop (suc fuel) x r bit =
    if bit == 0
    then r
    else if leb (r + bit) x
    then root_loop fuel (x - (r + bit)) (r / 2 + bit) (bit / 4)
    else root_loop fuel x (r / 2) (bit / 4)

pub integer_sqrt : ℕ → ℕ
integer_sqrt x = root_loop 16 x 0 (shrink 16 x (2 ^ 30))

-- The number of samples that are squared.
abbrev pub sample_count_of : MicFrame → ℕ
sample_count_of frame = if ltb 4096 frame.sample_count then 4096 else frame.sample_count

pub amplitude : MicFrame → ℕ
amplitude frame =
    let n = sample_count_of frame in
    if n == 0 then 0 else integer_sqrt (sum_below n (λ i. square (frame.samples i)) / n) % 2 ^ 32

pub capture_mic : MicFrame → MicSnap
capture_mic frame = record {
  sample_rate = frame.sample_rate;
  channels = frame.channels;
  amplitude_rms = amplitude frame;
  freq_peak_hz = 0;
  is_silence = ltb (amplitude frame) 100;
}

abbrev pub no_camera : CameraSnap
no_camera = record { width = 0; height = 0; mean_luma = 0; motion_delta = 0 }

abbrev pub no_mic : MicSnap
no_mic = record {
  sample_rate = 0;
  channels = 0;
  amplitude_rms = 0;
  freq_peak_hz = 0;
  is_silence = false;
}

abbrev pub in_gb : ℕ → ℕ
in_gb bytes = bytes / (1024 * 1024 * 1024) % 2 ^ 32

abbrev pub disk_snap : FsInfo → ℕ → DiskSnap
disk_snap info n = record {
  total_gb = in_gb info.total_bytes;
  free_gb = in_gb info.free_bytes;
  count = n;
}

-- The rest of a capture, with the camera's part.
pub capture_rest : World → ℕ → Bool → CameraSnap → SenseSnapshot
capture_rest w uptime cam frame = record {
  uptime_ms = uptime;
  camera_available = cam;
  camera_frame = frame;
  mic_available = elim w.mic [ none ↦ false | some _ ↦ true ];
  mic_frame = elim w.mic [ none ↦ no_mic | some m ↦ capture_mic m ];
  network_available = w.net.initialised;
  network = record {
    connected = w.net.link_up;
    rx_total = w.net.rx_bytes;
    tx_total = w.net.tx_bytes;
  };
  usb_fs = disk_snap w.usb w.usb.aion_memory_file_count;
  host_ssd_available = w.ssd.available;
  host_ssd =
      if w.ssd.available
      then disk_snap w.ssd w.ssd.root_entry_count
      else record { total_gb = 0; free_gb = 0; count = 0 };
}

-- `none` is the fault of a division by 0.
pub senses_capture : World → Senses → Option (SenseSnapshot × Senses)
senses_capture w s =
    let uptime = sub64 (get_uptime_ms w.tsc s) s.boot_tick in
    elim w.cam [
      | none ↦ some (capture_rest w uptime false no_camera, s)
      | some frame ↦ elim (capture_camera frame s.prev_luma) [
        | none ↦ none
        | some snap ↦
            some (capture_rest w uptime true snap, record s { prev_luma = snap.mean_luma })
      ]
    ]
