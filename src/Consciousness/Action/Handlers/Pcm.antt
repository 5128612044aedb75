-- ===== src/Consciousness/Action/Handlers/Pcm.antt =====
-- The hexadecimal samples of `act_audio_pcm`.
use aion_os.Prelude.{
  ℕ, zero, suc, ◌+◌, ◌*◌, ◌/◌, ◌%◌, ◌<◌, ◌≡◌, refl, ap, true, List, [], ◌∷◌, ◌==◌, ==_iff, ltb,
  if◌then◌else◌, take, bit_or, ◌∙◌, ◌-◌,
}
use aion_os.Prelude.Bytes.{each_below, each_below-at}
use aion_os.Consciousness.Text.{Text}
use aion_os.Consciousness.Action.Handlers.{hex_digit, hex_bytes}

-- A byte as two lower-case digits.
abbrev pub digit_char : ℕ → ℕ
digit_char d = if ltb d 10 then d + b'0' else d - 10 + b'a'

abbrev pub encode : List ℕ → Text
encode [] = []
encode (b ∷ bs) = digit_char (b / 16) ∷ digit_char (b % 16) ∷ encode bs

abbrev pub Samples : List ℕ → Type 0
Samples [] = Unit
Samples (b ∷ bs) = (b < 256) × Samples bs

digit_table :
    each_below 256 (λ b.
      bit_or (hex_digit (digit_char (b / 16)) * 16 % 256) (hex_digit (digit_char (b % 16))) == b)
    ≡ true
unfolding each_below hex_digit
digit_table = refl

-- The samples that are written in hexadecimal are the samples that are played, up to the room in the
-- buffer.
pub hex_bytes-encode :
    (room : ℕ) (bs : List ℕ) → Samples bs → hex_bytes room (encode bs) ≡ take room bs
unfolding hex_bytes
hex_bytes-encode zero bs h = refl
hex_bytes-encode (suc room) [] h = refl
hex_bytes-encode (suc room) (b ∷ bs) (hb, h) =
    let same = (==_iff _ b).0 (each_below-at _ 256 digit_table b hb) in
    ap (λ x. x ∷ hex_bytes room (encode bs)) same ∙ ap (λ xs. b ∷ xs) (hex_bytes-encode room bs h)
