-- ===== src/Consciousness/Senses/Loudness.antt =====
-- What the numbers of a capture mean.
use aion_os.Prelude.{
  ℕ, zero, suc, ◌+◌, ◌-◌, ◌*◌, ◌/◌, ◌%◌, ◌≤◌, ◌<◌, ◌≡◌, some, none, refl, arith, ltb, ◌==◌, ==_iff,
  if◌then◌else◌, inl, inr, Bool-cases, ltb→lt, ltb→ge, ◌⊎◌,
}
use native.Mathlib.Nat.{div-add-mod', mod-lt}
use aion_os.Consciousness.Senses.{
  CamFrame, CameraSnap, MicFrame, sum_below, luma_count, capture_camera, square, sample_count_of,
}

sum_below-le : (n b : ℕ) (f : ℕ → ℕ) → ((i : ℕ) → f i ≤ b) → sum_below n f ≤ n * b
unfolding sum_below
sum_below-le zero b f h = omega arith
sum_below-le (suc n) b f h = omega (arith, h n, sum_below-le n b f h)

mean_le : (s n b : ℕ) → 0 < n → s ≤ n * b → s / n ≤ b
mean_le s n b pos h = grind (arith, div-add-mod' s n)

mean_lt : (s n : ℕ) → 0 < n → (s / n * n ≤ s) × (s < (s / n + 1) * n)
mean_lt s n pos = omega (arith, div-add-mod' s n, mod-lt s pos)

-- The mean of the squared samples of a frame.
abbrev pub mean_square : MicFrame → ℕ
mean_square frame =
    sum_below (sample_count_of frame) (λ i. square (frame.samples i)) / sample_count_of frame

distance :
    (a b : ℕ)
    → a < 256
    → b < 256
    → let d = (if ltb a b then b - a else a - b) % 256 in (b + d ≡ a) ⊎ (a + d ≡ b)
distance a b ha hb = elim (Bool-cases (ltb a b)) [
  | inl less ↦ rw less (inr (omega (arith, ltb→lt _ _ less)))
  | inr more ↦ rw more (inl (omega (arith, ltb→ge _ _ more)))
]

-- A frame without pixels is a division by 0. For every other frame the luma is the mean of its first
-- 10000 bytes, or of all if there are fewer, without any cut, and the motion is its distance from
-- the luma before.
pub capture_camera-Mean :
    (frame : CamFrame) (prev : ℕ)
    → ((i : ℕ) → frame.bytes i < 256)
    → prev < 256
    → let n = luma_count frame in
      let sum = sum_below n frame.bytes in
      ((n ≡ 0) × (capture_camera frame prev ≡ none))
      ⊎ ((snap : CameraSnap) × (capture_camera frame prev ≡ some snap)
          × (snap.mean_luma * n ≤ sum)
          × (sum < (snap.mean_luma + 1) * n)
          × (snap.mean_luma < 256)
          × ((prev + snap.motion_delta ≡ snap.mean_luma)
              ⊎ (snap.mean_luma + snap.motion_delta ≡ prev)))
unfolding capture_camera
capture_camera-Mean frame prev bytes hp =
    let n = luma_count frame in
    let sum = sum_below n frame.bytes in
    elim (Bool-cases (n == 0)) [
      | inl none_left ↦ rw none_left (inl ((==_iff n 0).0 none_left, refl))
      | inr pixels ↦
          let pos : 0 < n = ground arith in
          let low : sum / n ≤ 255 =
            mean_le sum n 255 pos (sum_below-le n 255 frame.bytes (λ i. omega (arith, bytes i))) in
          let kept : sum / n % 256 ≡ sum / n = omega (arith, low) in
          let mean = mean_lt sum n pos in
          rw pixels (
            inr (
              _,
              refl,
              rw kept mean.0,
              rw kept mean.1,
              omega arith,
              distance (sum / n % 256) prev (omega arith) hp,
            ))
    ]
