-- ===== src/Kernel/Drivers/Serial/Format.antt =====
-- `serial_printf`: plain text, and the conversions inside of it.
use mathlib.Core.List.{append_assoc, append-nil}
use aion_os.Prelude.{
  ℕ, ◌^◌, ◌<◌, ◌≡◌, ◌≢◌, refl, ap, sym, ◌∙◌, Option, none, some, arith, List, [], ◌∷◌, ◌++◌, ne→==,
}
use aion_os.Kernel.Drivers.Serial.{
  Arg, text, word, emit, plain, format_from, serial_printf, conversion_at, conversion,
  long_conversion, convert,
}
use aion_os.Consciousness.Text.{codes}
use aion_os.Kernel.Drivers.Serial.Digits.{number_of, print_uint-number}

-- No byte of the text is a percent sign.
abbrev pub IsPlain : List ℕ → Type 0
IsPlain [] = Unit
IsPlain (c ∷ s) = (c ≢ b'%') × IsPlain s

emit-emit :
    (a b : List ℕ) (o : Option (List ℕ)) → emit (some a) (emit (some b) o) ≡ emit (some (a ++ b)) o
unfolding emit
emit-emit a b none = refl
emit-emit a b (some c) = ap (λ s. some s) (sym (append_assoc a b c))

emit-nil : (o : Option (List ℕ)) → emit (some []) o ≡ o
unfolding emit
emit-nil none = refl
emit-nil (some s) = refl

format-plain :
    (p fmt : List ℕ) (args : List Arg)
    → IsPlain p
    → format_from plain (p ++ fmt) args ≡ emit (some p) (format_from plain fmt args)
unfolding format_from conversion_at convert emit
format-plain [] fmt args h = sym (emit-nil (format_from plain fmt args))
format-plain (c ∷ p) fmt args h =
    rw (ne→== c b'%' h.0, conversion_at, convert)
      (ap (emit (some (c ∷ []))) (format-plain p fmt args h.1)
        ∙ emit-emit (c ∷ []) p (format_from plain fmt args))

-- Text without a percent sign is printed as it stands. Behind such a text `%s` prints its argument
-- and `%llu` the decimal numeral of its own; `%llx` prints nothing and takes no argument, so that
-- the next conversion gets the number that was meant for it.
pub serial_printf-conversions :
    (p fmt s : List ℕ) (v : ℕ) (args : List Arg)
    → IsPlain p
    → v < 2 ^ 64
    → (serial_printf p args ≡ some p)
      × (serial_printf (p ++ b'%' ∷ b's' ∷ fmt) (text s ∷ args)
          ≡ emit (some (p ++ s)) (serial_printf fmt args))
      × ((ds : List ℕ) × (number_of 10 0 ds ≡ v)
          × (serial_printf (p ++ b'%' ∷ b'l' ∷ b'l' ∷ b'u' ∷ fmt) (word v ∷ args)
              ≡ emit (some (p ++ ds)) (serial_printf fmt args)))
      × (serial_printf (p ++ b'%' ∷ b'l' ∷ b'l' ∷ b'x' ∷ fmt) args
          ≡ emit (some p) (serial_printf fmt args))
unfolding serial_printf format_from conversion_at conversion convert long_conversion emit
serial_printf-conversions p fmt s v args h small =
    let (ds, prints, value, lead) = print_uint-number v 10 (omega arith) (omega arith) small in
    (
      ap (λ t. format_from plain t args) (sym (append-nil p))
          ∙ format-plain p [] args h
          ∙ ap (λ t. some t) (append-nil p),
      format-plain p (b'%' ∷ b's' ∷ fmt) (text s ∷ args) h
          ∙ emit-emit p s (format_from plain fmt args),
      (
        ds,
        value,
        format-plain p (b'%' ∷ b'l' ∷ b'l' ∷ b'u' ∷ fmt) (word v ∷ args) h
            ∙ ap (λ o. emit (some p) (emit o (format_from plain fmt args))) prints
            ∙ emit-emit p ds (format_from plain fmt args),
      ),
      format-plain p (b'%' ∷ b'l' ∷ b'l' ∷ b'x' ∷ fmt) args h
          ∙ ap (emit (some p)) (emit-nil (format_from plain fmt args)),
    )

-- A width is not understood: `%-20s` prints `20s` and takes no argument, so that the next `%s` prints
-- the text that was meant for it and the last argument is lost.
pub serial_printf-width :
    (stage msg : List ℕ)
    → serial_printf (codes "[boot] %-20s %s" ++ 10 ∷ []) (text stage ∷ text msg ∷ [])
      ≡ some (codes "[boot] 20s " ++ (stage ++ 10 ∷ []))
unfolding serial_printf format_from conversion_at conversion convert emit
serial_printf-width stage msg = refl
