-- ===== src/Kernel/Drivers/Audio/Wave.antt =====
-- The wave of `audio_play_tone`.
use native.Mathlib.Nat.{lt-div-mul-add}
use aion_os.Prelude.{
  ℕ, zero, suc, ◌+◌, ◌*◌, ◌/◌, ◌%◌, ◌≤◌, ◌<◌, ◌≡◌, refl, ap, ◌∙◌, false, some, List, arith, ltb,
  ◌==◌, get_elem?, length, ne→==,
}
use aion_os.Kernel.Drivers.Audio.{sample_rate, sample_count, level, wave, tone}

wave-get :
    (n i period volume j : ℕ)
    → j < n
    → get_elem? (wave n i period volume) j
      ≡ some (level volume (ltb ((i + j) % period) (period / 2)))
unfolding wave
wave-get zero i period volume j h = absurd (omega arith)
wave-get (suc n) i period volume zero h =
    ap (λ (t : ℕ). some (level volume (ltb (t % period) (period / 2)))) (omega arith)
wave-get (suc n) i period volume (suc j) h =
    wave-get n (i + 1) period volume j (omega arith)
    ∙ ap (λ (t : ℕ). some (level volume (ltb (t % period) (period / 2)))) (omega arith)

sample_count_le : (ms : ℕ) → sample_count ms ≤ 44100
unfolding sample_count
sample_count_le ms = ground arith

wave-length : (n i period volume : ℕ) → length (wave n i period volume) ≡ n
unfolding wave
wave-length zero i period volume = refl
wave-length (suc n) i period volume = ap suc (wave-length n (i + 1) period volume)

-- Up to the sample rate a period has a sample at least.
period_pos : (hz : ℕ) → 0 < hz → hz ≤ sample_rate → (sample_rate / hz == 0) ≡ false
period_pos hz lo hi = ne→== (sample_rate / hz) 0 λ e.
    absurd (omega (arith, lt-div-mul-add {a = sample_rate} {b = hz} lo, ap (λ (t : ℕ). t * hz) e))

-- A tone of a frequency from 1 to the sample rate is played without a fault. It has at most 44100
-- samples, and each of them is high in the first half of its period and low in the second.
pub tone-wave :
    (hz ms volume : ℕ)
    → 0 < hz
    → hz ≤ sample_rate
    → (pcm : List ℕ) × (tone hz ms volume ≡ some pcm)
      × (length pcm ≤ 44100)
      × ((j : ℕ)
          → j < length pcm
          → get_elem? pcm j
            ≡ some (level volume (ltb (j % (sample_rate / hz)) (sample_rate / hz / 2))))
unfolding tone
tone-wave hz ms volume lo hi =
    let some_hz : (hz == 0) ≡ false = ground arith in
    let pcm : List ℕ = wave (sample_count ms) 0 (sample_rate / hz) volume in
    let size = wave-length (sample_count ms) 0 (sample_rate / hz) volume in
    (
      pcm,
      rw (some_hz, period_pos hz lo hi),
      omega (arith, size, sample_count_le ms),
      λ j h.
          wave-get (sample_count ms) 0 (sample_rate / hz) volume j (omega (arith, size))
          ∙ ap
              (λ (t : ℕ). some (level volume (ltb (t % (sample_rate / hz)) (sample_rate / hz / 2))))
              (omega arith),
    )
