-- ===== src/Kernel/Drivers/Audio.antt =====
-- The audio driver of kernel/drivers/audio/audio.c: the start of the HDA controller, and the square
-- wave of `audio_play_tone`. A sample, an `int16_t`, is its pattern of 16 bits.
pub mod Wave
use aion_os.Prelude.{
  ℕ, zero, suc, ◌+◌, ◌-◌, ◌*◌, ◌/◌, ◌%◌, ◌^◌, Bool, true, false, not, ◌||◌, Option, none, some,
  List, [], ◌∷◌, ltb, ◌==◌, if◌then◌else◌,
}
use aion_os.Kernel.Io.{Ports}
use aion_os.Kernel.Drivers.Pci.{PciDevice, pci_find_class, pci_enable_bus_master, pci_get_bar}

abbrev pub hda_class : ℕ
hda_class = 0x04

abbrev pub hda_subclass : ℕ
hda_subclass = 0x03

abbrev pub hda_gctl : ℕ
hda_gctl = 0x08

-- The static variables, and the registers that the driver wrote, the latest first.
pub record Audio : Type 0 where
  pub hda_base : ℕ
  pub hda_ready : Bool
  pub written : List (ℕ × ℕ)

pub hda_write32 : ℕ → ℕ → Audio → Audio
hda_write32 reg val s = record s { written = (s.hda_base + reg, val) ∷ s.written }

-- `audio_init` behind the search, with the base address.
pub reset_hda : Option ℕ → Audio → Audio
unfolding hda_write32
reset_hda none s = s
reset_hda (some bar) s =
    let s1 = hda_write32 hda_gctl 1 (hda_write32 hda_gctl 0 (record s { hda_base = bar })) in
    record s1 { hda_ready = true }

pub audio_found : {D : Type 0} → Ports D → Option PciDevice × D → Audio → Audio × D
unfolding reset_hda
audio_found io (none, d) s = (s, d)
audio_found io (some pci, d) s = (reset_hda (pci_get_bar pci 0) s, pci_enable_bus_master io pci d)

pub audio_init : {D : Type 0} → Ports D → Audio → D → Audio × D
unfolding audio_found
audio_init io s d = audio_found io (pci_find_class io hda_class hda_subclass d) s

abbrev pub sample_rate : ℕ
sample_rate = 44100

-- The number of samples; the product wraps at 32 bits.
pub sample_count : ℕ → ℕ
sample_count ms =
    let samples = sample_rate * ms % 2 ^ 32 / 1000 in if ltb 44100 samples then 44100 else samples

-- `(int16_t)(volume * 128)`, and its negation
pub level : ℕ → Bool → ℕ
level volume high = if high then volume * 128 else (2 ^ 16 - volume * 128) % 2 ^ 16

-- The loop that fills `pcm_buf`, with the rounds left, from sample `i` on.
pub wave : ℕ → ℕ → ℕ → ℕ → List ℕ
wave zero i period volume = []
wave (suc n) i period volume =
    level volume (ltb (i % period) (period / 2)) ∷ wave n (i + 1) period volume

-- The samples that `audio_play_tone` hands to `audio_play_pcm`. `none` is the fault of a division by
-- zero: of the rate by `hz`, or of a sample's number by a period of 0.
pub tone : ℕ → ℕ → ℕ → Option (List ℕ)
tone hz ms volume =
    if hz == 0
    then none
    else if sample_rate / hz == 0
    then (if sample_count ms == 0 then some [] else none)
    else some (wave (sample_count ms) 0 (sample_rate / hz) volume)

-- What the call plays; `some none` is the return of a driver that is not ready.
pub audio_play_tone : ℕ → ℕ → ℕ → Audio → Option (Option (List ℕ))
audio_play_tone hz ms volume s =
    if not s.hda_ready
    then some none
    else elim (tone hz ms volume) [ none ↦ none | some pcm ↦ some (some pcm) ]

-- `audio_play_pcm` and `audio_stop` only log; whether they do.
pub audio_play_pcm : Bool → Audio → Bool
audio_play_pcm has_data s = if not s.hda_ready || not has_data then false else true

pub audio_stop : Audio → Bool
audio_stop s = s.hda_ready

pub audio_is_playing : Audio → Bool
audio_is_playing s = false
