-- ===== src/Consciousness/Life/Signal.antt =====
-- The sense signal of consciousness/core/consciousness.c in `sense_buf`, against its text written out.
use mathlib.Core.List.{append_assoc, append-nil}
use aion_os.Prelude.{
  ℕ, zero, suc, ◌+◌, ◌-◌, ◌/◌, ◌%◌, ◌^◌, ◌≤◌, ◌<◌, ◌≡◌, refl, sym, ap, Bool, true, false, Option,
  some, [], ◌∷◌, ◌++◌, arith, ltb, ◌==◌, if◌then◌else◌, length, take, length-append, take_all,
  Bool-cases, inl, inr,
}
use aion_os.Kernel.Memory.Status.{MemoryStatus}
use aion_os.Consciousness.Text.{Text}
use aion_os.Consciousness.Memory.Disk.{to_decimal}
use aion_os.Consciousness.Senses.{SenseSnapshot}
use aion_os.Consciousness.Life.{
  unsigned32, unsigned64, flag, tick_text, camera_text, mic_text, net_text, memory_text,
  sense_buf_size, SenseBuf, snprintf, snprintf_if, end_text, sense_text,
}

-- The part of a sense that is there.
abbrev pub when : Bool → Text → Text
when available text = if available then text else []

-- The signal, written out: the tick, the senses that are there, and the free memory.
pub signal : ℕ → SenseSnapshot → MemoryStatus → Text
signal tick s m =
    tick_text tick
    ++ (when s.camera_available (camera_text s)
        ++ (when s.mic_available (mic_text s)
            ++ (when s.network_available (net_text s) ++ memory_text m)))

length-to_decimal : (j k n : ℕ) → n < 10 ^ suc j → length (to_decimal k n) ≤ suc j
unfolding to_decimal
length-to_decimal j zero n h = omega arith
length-to_decimal zero (suc k) n h =
    let low : (n / 10 == 0) ≡ true = ground arith in rw low (omega arith)
length-to_decimal (suc j) (suc k) n h = elim (Bool-cases (n / 10 == 0)) [
  | inl e ↦ rw e (omega arith)
  | inr e ↦ rw e (
      omega (
        arith,
        length-append (to_decimal k (n / 10)) ((n % 10 + b'0') ∷ []),
        length-to_decimal j k (n / 10) (ground arith),
      ))
]

length-unsigned32 : (n : ℕ) → length (unsigned32 n) ≤ 10
length-unsigned32 n = length-to_decimal 9 64 (n % 2 ^ 32) (omega arith)

length-unsigned64 : (n : ℕ) → length (unsigned64 n) ≤ 20
length-unsigned64 n = length-to_decimal 19 64 (n % 2 ^ 64) (omega arith)

length-flag : (b : Bool) → length (flag b) ≤ 1
length-flag true = omega arith
length-flag false = omega arith

tick_short : (tick : ℕ) → length (tick_text tick) ≤ 23
tick_short tick = omega (arith, length-append {0}, length-unsigned64)

camera_short : (s : SenseSnapshot) → length (camera_text s) ≤ 59
camera_short s = omega (arith, length-append {0}, length-unsigned32)

mic_short : (s : SenseSnapshot) → length (mic_text s) ≤ 29
mic_short s = omega (arith, length-append {0}, length-unsigned32, length-flag)

net_short : (s : SenseSnapshot) → length (net_text s) ≤ 30
net_short s = omega (arith, length-append {0}, length-unsigned64, length-flag)

memory_short : (m : MemoryStatus) → length (memory_text m) ≤ 30
memory_short m = omega (arith, length-append {0}, length-unsigned64)

-- The buffer that holds a whole text.
abbrev holding : Text → Option SenseBuf
holding w = some (record { written = w; pos = length w })

snprintf-holding :
    (w text : Text)
    → length w + length text < sense_buf_size
    → snprintf text (holding w) ≡ holding (w ++ text)
unfolding snprintf
snprintf-holding w text h =
    let inside : ltb sense_buf_size (length w) ≡ false = ground arith in
    let whole : take (sense_buf_size - length w - 1) text ≡ text =
      take_all text (sense_buf_size - length w - 1) (omega arith) in
    rw (inside, whole, length-append w text) refl

snprintf_if-holding :
    (w text : Text) (available : Bool)
    → length w + length text < sense_buf_size
    → snprintf_if available text (holding w) ≡ holding (w ++ when available text)
unfolding snprintf_if
snprintf_if-holding w text true h = snprintf-holding w text h
snprintf_if-holding w text false h = ap holding (sym (append-nil w))

length-when :
    (a : ℕ) (available : Bool) (text : Text) → length text ≤ a → length (when available text) ≤ a
length-when a true text h = h
length-when a false text h = omega arith

length-signal : (tick : ℕ) (s : SenseSnapshot) (m : MemoryStatus) → length (signal tick s m) ≤ 171
unfolding signal
length-signal tick s m =
    let cam = when s.camera_available (camera_text s) in
    let mic = when s.mic_available (mic_text s) in
    let net = when s.network_available (net_text s) in
    omega (
      arith,
      length-append (tick_text tick) (cam ++ (mic ++ (net ++ memory_text m))),
      length-append cam (mic ++ (net ++ memory_text m)),
      length-append mic (net ++ memory_text m),
      length-append net (memory_text m),
      tick_short tick,
      memory_short m,
      length-when 59 s.camera_available (camera_text s) (camera_short s),
      length-when 29 s.mic_available (mic_text s) (mic_short s),
      length-when 30 s.network_available (net_text s) (net_short s),
    )

-- The `snprintf` calls of `consciousness_run` put the tick, each sense that is there and the free
-- memory behind one another into the 2048 bytes of `sense_buf`: none of them is cut, none falls
-- outside, and the terminator lies inside. The signal has at most 171 bytes.
pub sense_text-signal :
    (tick : ℕ) (s : SenseSnapshot) (m : MemoryStatus)
    → (sense_text tick s m ≡ some (signal tick s m)) × (length (signal tick s m) ≤ 171)
unfolding sense_text signal end_text
sense_text-signal tick s m =
    let cam = when s.camera_available (camera_text s) in
    let mic = when s.mic_available (mic_text s) in
    let net = when s.network_available (net_text s) in
    let t = tick_text tick in
    let t_cam = t ++ cam in
    let t_mic = t_cam ++ mic in
    let t_net = t_mic ++ net in
    let short_t = tick_short tick in
    let short_cam = length-when 59 s.camera_available (camera_text s) (camera_short s) in
    let short_mic = length-when 29 s.mic_available (mic_text s) (mic_short s) in
    let short_net = length-when 30 s.network_available (net_text s) (net_short s) in
    let cam_there = camera_short s in
    let mic_there = mic_short s in
    let net_there = net_short s in
    let mem_there = memory_short m in
    let len_cam = length-append t cam in
    let len_mic = length-append t_cam mic in
    let len_net = length-append t_mic net in
    let len_mem = length-append t_net (memory_text m) in
    let inside : ltb (length (t_net ++ memory_text m)) sense_buf_size ≡ true = ground arith in
    (
      rw
          (
            snprintf-holding [] t (omega arith),
            snprintf_if-holding t (camera_text s) s.camera_available (omega arith),
            snprintf_if-holding t_cam (mic_text s) s.mic_available (omega arith),
            snprintf_if-holding t_mic (net_text s) s.network_available (omega arith),
            snprintf-holding t_net (memory_text m) (omega arith),
            inside,
            append_assoc t_mic net (memory_text m),
            append_assoc t_cam mic (net ++ memory_text m),
            append_assoc t cam (mic ++ (net ++ memory_text m)),
          )
          refl,
      length-signal tick s m,
    )
