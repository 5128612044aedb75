-- ===== src/Consciousness/Action/Handlers.antt =====
-- The action handlers of consciousness/core/action.c, over the services that they call.
pub mod Guards
pub mod Pcm
use aion_os.Prelude.{
  ℕ, zero, suc, ◌+◌, ◌-◌, ◌*◌, ◌/◌, ◌%◌, ◌^◌, Bool, true, false, not, ◌&&◌, ◌||◌, Option, none,
  some, List, [], ◌∷◌, ◌++◌, ltb, leb, ◌==◌, if◌then◌else◌, length, take, bit_or,
}
use mathlib.Core.Option
use aion_os.Consciousness.Memory.{AionMemoryEntry}
use aion_os.Consciousness.Text.{Text, codes, find_after}
use aion_os.Consciousness.Action.Results.{Act, record_result}
use aion_os.Consciousness.Action.Params.{parse_param_str, parse_param_int, lt_signed}

-- The drivers and subsystems that the handlers call, over a type of states of the machine. A call
-- that returns an `int` says by the Boolean whether it is negative; the value goes into no state.
-- `signed_overflow` is what the compiled code leaves of a number that overflows `int64_t`.
pub record Services (W : Type 0) : Type 0 where
  pub display_print_string : Text → ℕ → W → W
  pub display_set_pixel : ℕ → ℕ → ℕ → W → W
  pub display_clear : W → W
  pub audio_play_tone : ℕ → ℕ → ℕ → W → W
  pub audio_play_pcm : List ℕ → ℕ → ℕ → W → W
  pub audio_stop : W → W
  pub aion_memory_store : AionMemoryEntry → W → W
  pub memory_found : Text → W → Bool
  pub fs_read_fails : Text → ℕ → W → Bool
  pub fs_write_file_usb : Text → Text → W → W
  pub http_get_fails : Text → ℕ → W → Bool
  pub wrmsr : ℕ → ℕ → W → W
  pub signed_overflow : ℕ → ℕ → ℕ

-- A string parameter in a zeroed buffer of `size` bytes.
abbrev pub str_or_empty : Text → Text → ℕ → Text
str_or_empty token key size = Option.get_or (parse_param_str token key size) []

-- An integer parameter with its default.
abbrev pub int_or : (ℕ → ℕ → ℕ) → ℕ → Text → Text → ℕ
int_or signed_overflow default token key =
    Option.get_or (parse_param_int signed_overflow token key) default

-- `hi` or `lo` of `act_audio_pcm`, a `uint8_t`. A `char` is signed, so a byte from 128 on is below
-- both letters.
pub hex_digit : ℕ → ℕ
hex_digit c =
    if leb b'a' c && ltb c 128
    then c - b'a' + 10
    else if leb b'A' c && ltb c 128
    then c - b'A' + 10
    else (c + 256 - b'0') % 256

-- The loop over pairs of digits, with the room left in `pcm_buf`.
pub hex_bytes : ℕ → Text → List ℕ
hex_bytes zero hex = []
hex_bytes (suc room) [] = []
hex_bytes (suc room) (h ∷ []) = []
hex_bytes (suc room) (h ∷ l ∷ hex) =
    bit_or (hex_digit h * 16 % 256) (hex_digit l) ∷ hex_bytes room hex

-- `(uint8_t)(importance > 255 ? 255 : importance)`
abbrev pub importance_byte : ℕ → ℕ
importance_byte i = if lt_signed i 256 then i % 256 else 255

-- `path[0] != '/' || strstr(path, "..")`
pub rejects : Text → Bool
rejects [] = true
rejects (c ∷ s) =
    not (c == b'/') || elim (find_after (codes "..") (c ∷ s)) [ none ↦ false | some _ ↦ true ]

-- The clamp to the limits of the hardware.
pub clamp_mhz : ℕ → ℕ
clamp_mhz mhz =
    let low = if lt_signed mhz 400 then 400 else mhz in if lt_signed low 3401 then low else 3400

module _ {W : Type 0} (sv : Services W) where
  -- A call that changes the machine.
  abbrev on_world : (W → W) → Act W → Act W
  on_world f a = record a { world = f a.world }

  unfoldable pub act_display : Text → Act W → Act W
  act_display token a =
      let text = str_or_empty token (codes "text") 512 in
      let color = int_or sv.signed_overflow 0xffff_ffff token (codes "color") in
      record_result (codes "DISPLAY: printed %zu chars")
        (on_world (sv.display_print_string text (color % 2 ^ 32)) a)

  unfoldable pub act_display_pixel : Text → Act W → Act W
  act_display_pixel token a =
      let x = int_or sv.signed_overflow 0 token (codes "x") % 2 ^ 32 in
      let y = int_or sv.signed_overflow 0 token (codes "y") % 2 ^ 32 in
      let r = int_or sv.signed_overflow 0 token (codes "r") % 2 ^ 32 in
      let g = int_or sv.signed_overflow 0 token (codes "g") % 2 ^ 32 in
      let b = int_or sv.signed_overflow 0 token (codes "b") % 2 ^ 32 in
      let color = bit_or (bit_or (r * 2 ^ 16 % 2 ^ 32) (g * 2 ^ 8 % 2 ^ 32)) b in
      on_world (sv.display_set_pixel x y color) a

  unfoldable pub act_audio_freq : Text → Act W → Act W
  act_audio_freq token a =
      let hz = int_or sv.signed_overflow 440 token (codes "hz") in
      let ms = int_or sv.signed_overflow 100 token (codes "ms") in
      let vol = int_or sv.signed_overflow 64 token (codes "volume") in
      record_result (codes "AUDIO_FREQ: played %lldHz for %lldms")
        (on_world (sv.audio_play_tone (hz % 2 ^ 32) (ms % 2 ^ 32) (vol % 256)) a)

  unfoldable pub act_audio_pcm : Text → Act W → Act W
  act_audio_pcm token a = elim (parse_param_str token (codes "data") 4096) [
    | none ↦ a
    | some hex ↦
        record_result (codes "AUDIO_PCM: sent %d bytes to DAC")
          (on_world (sv.audio_play_pcm (hex_bytes 2048 hex) 44100 1) a)
  ]

  unfoldable pub act_audio_stop : Text → Act W → Act W
  act_audio_stop token a = record_result (codes "AUDIO_STOP: ok") (on_world sv.audio_stop a)

  unfoldable pub act_memory_store : Text → Act W → Act W
  act_memory_store token a =
      let key = str_or_empty token (codes "key") 128 in
      let value = str_or_empty token (codes "value") 1024 in
      let importance = int_or sv.signed_overflow 1 token (codes "importance") in
      let content = take 1199 (key ++ (codes ": " ++ value)) in
      record_result (codes "MEMORY_STORE: key=%s stored") (
        on_world
          (sv.aion_memory_store (record {
            type = 1;
            importance = importance_byte importance;
            tick = 0;
            content = content;
          }))
          a)

  unfoldable pub act_memory_recall : Text → Act W → Act W
  act_memory_recall token a =
      let key = str_or_empty token (codes "key") 128 in
      if sv.memory_found key a.world
      then record_result (codes "MEMORY_RECALL: key=%s value=%s") a
      else record_result (codes "MEMORY_RECALL: key=%s not found") a

  unfoldable pub act_file_read : Text → Act W → Act W
  act_file_read token a =
      let path = str_or_empty token (codes "path") 512 in
      if sv.fs_read_fails path 8191 a.world
      then record_result (codes "FILE_READ: path=%s error=%d") a
      else record_result (codes "FILE_READ: path=%s bytes=%d content_preview=%.*s") a

  unfoldable pub act_file_write : Text → Act W → Act W
  act_file_write token a =
      let path = str_or_empty token (codes "path") 512 in
      let contents = str_or_empty token (codes "data") 4096 in
      if rejects path
      then record_result (codes "FILE_WRITE: rejected path=%s") a
      else record_result (codes "FILE_WRITE: path=%s bytes=%d")
          (on_world (sv.fs_write_file_usb path contents) a)

  unfoldable pub act_net_fetch : Text → Act W → Act W
  act_net_fetch token a =
      let url = str_or_empty token (codes "url") 512 in
      if sv.http_get_fails url 16383 a.world
      then record_result (codes "NET_FETCH: url=%s error=%d") a
      else record_result (codes "NET_FETCH: url=%s bytes=%d preview=%.*s") a

  -- IA32_PERF_CTL is register 0x199.
  unfoldable pub act_cpu_freq_set : Text → Act W → Act W
  act_cpu_freq_set token a =
      let mhz = clamp_mhz (int_or sv.signed_overflow 1600 token (codes "mhz")) in
      record_result (codes "CPU_FREQ_SET: mhz=%lld ok")
        (on_world (sv.wrmsr 0x199 (mhz / 100 * 256 % 2 ^ 32)) a)

  -- The busy wait changes nothing.
  unfoldable pub act_sleep_ms : Text → Act W → Act W
  act_sleep_ms token a = record_result (codes "SLEEP_MS: %lld ms elapsed") a

  -- The status that the arguments read goes into no state, since formats are stored unexpanded.
  unfoldable pub act_hardware_query : Text → Act W → Act W
  act_hardware_query token a =
      record_result
        (codes "HARDWARE: cpu=i5-8250U cores=4 threads=8 "
          ++ (codes "ram_total=%lluMB ram_free=%lluMB "
              ++ (codes "swap_total=%lluGB "
                  ++ (codes "display=%dx%d "
                      ++ (codes "cam=available mic=available audio=available "
                          ++ codes "usb=128GB network=available bluetooth=available")))))
        a

  unfoldable pub act_display_clear : Text → Act W → Act W
  act_display_clear token a =
      record_result (codes "DISPLAY_CLEAR: ok") (on_world sv.display_clear a)
