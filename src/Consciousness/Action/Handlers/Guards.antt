-- ===== src/Consciousness/Action/Handlers/Guards.antt =====
-- What the handlers let through to the hardware and to the file system.
use aion_os.Prelude.{
  ℕ, ◌*◌, ◌/◌, ◌≤◌, ◌≡◌, ◌⊎◌, ◌↔◌, ap, false, [], ◌∷◌, ◌==◌, ==_iff, inl, inr, Bool-cases,
  Option-cases, arith, ◌∙◌,
}
use aion_os.Consciousness.Text.{Text, codes, find_after, Occurs, find_after-none}
use aion_os.Consciousness.Action.Results.{Act}
use aion_os.Consciousness.Action.Results.Kept.{world-record_result}
use aion_os.Consciousness.Action.Handlers.{
  Services, rejects, clamp_mhz, str_or_empty, act_file_write, act_cpu_freq_set, int_or,
}

-- The path begins with a slash, and never holds two dots in a row.
abbrev pub IsConfined : Text → Type 0
IsConfined path = ((s : Text) × (path ≡ b'/' ∷ s)) × (¬ Occurs (codes "..") path)

-- `act_file_write` lets exactly these paths through.
rejects_iff : (path : Text) → (rejects path ≡ false) ↔ IsConfined path
unfolding rejects
rejects_iff [] = (λ h. cc, λ h. let (s, e) = h.0 in cc)
rejects_iff (c ∷ s) = (
  λ h. elim (Bool-cases (c == b'/')) [
    | inl slash ↦ elim (Option-cases (find_after (codes "..") (c ∷ s))) [
      | inl e ↦ ((s, ap (λ x. x ∷ s) ((==_iff c b'/').0 slash)), (find_after-none _ _).0 e)
      | inr (r, e) ↦ absurd (cc (rw (slash, e) at h))
    ]
    | inr other ↦ absurd (cc (rw other at h))
  ],
  λ ((r, e), safe). rw ((==_iff c b'/').1 (head e), (find_after-none _ _).1 safe),
)
  where
    head : {c d : ℕ} {s r : Text} → c ∷ s ≡ d ∷ r → c ≡ d
    head e = cc

-- The ratio that `act_cpu_freq_set` writes lies between 4 and 34.
clamp_mhz-bounds : (mhz : ℕ) → (400 ≤ clamp_mhz mhz) × (clamp_mhz mhz ≤ 3400)
unfolding clamp_mhz
clamp_mhz-bounds mhz = ground arith

clamp_mhz-inside : (mhz : ℕ) → 400 ≤ mhz → mhz ≤ 3400 → clamp_mhz mhz ≡ mhz
unfolding clamp_mhz
clamp_mhz-inside mhz low high = ground arith

module _ {W : Type 0} (sv : Services W) where
  -- Whatever the token says, `act_file_write` either changes nothing outside the results, or writes
  -- to a confined path: one that begins with a slash and never holds two dots in a row.
  pub act_file_write-IsConfined :
      (token : Text) (a : Act W)
      → ((act_file_write sv token a).world ≡ a.world)
        ⊎ ((path : Text) × (contents : Text) × IsConfined path
            × ((act_file_write sv token a).world ≡ sv.fs_write_file_usb path contents a.world))
  unfolding act_file_write
  act_file_write-IsConfined token a =
      let path = str_or_empty token (codes "path") 512 in
      elim (Bool-cases (rejects path)) [
        | inl refused ↦ inl (rw refused (world-record_result _ a))
        | inr passed ↦ inr (
          path,
          str_or_empty token (codes "data") 4096,
          (rejects_iff path).0 passed,
          rw passed (world-record_result _ _),
        )
      ]

  -- Whatever frequency the token asks for, `act_cpu_freq_set` writes to IA32_PERF_CTL, and to no
  -- other place, a ratio from 4 to 34 in bits 8 to 15.
  pub act_cpu_freq_set-ratio :
      (token : Text) (a : Act W)
      → (ratio : ℕ) × (4 ≤ ratio)
        × (ratio ≤ 34)
        × ((act_cpu_freq_set sv token a).world ≡ sv.wrmsr 0x199 (ratio * 256) a.world)
  unfolding act_cpu_freq_set
  act_cpu_freq_set-ratio token a =
      let mhz = clamp_mhz (int_or sv.signed_overflow 1600 token (codes "mhz")) in
      let bounds = clamp_mhz-bounds (int_or sv.signed_overflow 1600 token (codes "mhz")) in
      (
        mhz / 100,
        omega (arith, bounds),
        omega (arith, bounds),
        world-record_result _ _ ∙ ap (λ v. sv.wrmsr 0x199 v a.world) (omega (arith, bounds)),
      )
