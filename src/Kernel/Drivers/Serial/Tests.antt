-- ===== src/Kernel/Drivers/Serial/Tests.antt =====
-- The console on a UART that is busy for three readings after each byte.
use aion_os.Prelude.{
  ℕ, ◌-◌, ◌≤◌, ◌<◌, ◌≡◌, refl, some, arith, List, [], ◌∷◌, ◌++◌, ◌==◌, if◌then◌else◌,
}
use aion_os.Consciousness.Text.{codes}
use aion_os.Kernel.Io.{Ports}
use aion_os.Kernel.Drivers.Serial.{com1, text, word, emit, print_uint, serial_printf, serial_puts}
use aion_os.Kernel.Drivers.Serial.Digits.{number_of, IsNumeral, print_uint-number}
use aion_os.Kernel.Drivers.Serial.Format.{serial_printf-conversions}
use aion_os.Kernel.Drivers.Serial.Uart.{IsUart, on_line, serial_puts-on_line}

record Line : Type 0 where
  busy : ℕ
  sent : List ℕ

uart : Ports Line
uart = record {
  inb = λ port d. (if d.busy == 0 then 32 else 0, record d { busy = d.busy - 1 });
  outb = λ port c d. if port == com1 then record d { busy = 3; sent = d.sent ++ c ∷ [] } else d;
  inl = λ port d. (0, d);
  outl = λ port v d. d;
}

uart-IsUart : IsUart uart (λ d. d.busy) (λ d. d.sent) 3
unfolding uart
uart-IsUart = record {
  status = λ d. ground arith;
  poll = λ d. refl;
  poll_sent = λ d. refl;
  write_sent = λ c d h. refl;
  write_busy = λ c d. omega arith;
}

abbrev silent : Line
silent = record { busy = 0; sent = [] }

serial_puts-on_line_example :
    (e : Line) × (serial_puts uart 4 (codes "hi") silent ≡ some e)
    × (e.sent ≡ [] ++ on_line (codes "hi"))
    × (e.busy ≤ 3)
serial_puts-on_line_example =
    serial_puts-on_line uart-IsUart 4 (codes "hi") silent (omega arith) (omega arith)

print_uint-number_example :
    (s : List ℕ) × (print_uint 255 16 ≡ some s) × (number_of 16 0 s ≡ 255) × (0 < 255 → IsNumeral s)
print_uint-number_example = print_uint-number 255 16 (omega arith) (omega arith) (omega arith)

serial_printf-conversions_example :
    let p = codes "tick " in
    let fmt = codes "!" in
    (serial_printf p (word 1 ∷ []) ≡ some p)
    × (serial_printf (p ++ codes "%s!") (text (codes "x") ∷ word 1 ∷ [])
        ≡ emit (some (p ++ codes "x")) (serial_printf fmt (word 1 ∷ [])))
    × ((ds : List ℕ) × (number_of 10 0 ds ≡ 42)
        × (serial_printf (p ++ codes "%llu!") (word 42 ∷ word 1 ∷ [])
            ≡ emit (some (p ++ ds)) (serial_printf fmt (word 1 ∷ []))))
    × (serial_printf (p ++ codes "%llx!") (word 1 ∷ [])
        ≡ emit (some p) (serial_printf fmt (word 1 ∷ [])))
serial_printf-conversions_example =
    serial_printf-conversions (codes "tick ") (codes "!") (codes "x") 42 (word 1 ∷ [])
      (omega arith, (omega arith, (omega arith, (omega arith, (omega arith, tt))))) (omega arith)
