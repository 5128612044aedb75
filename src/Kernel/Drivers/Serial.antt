-- ===== src/Kernel/Drivers/Serial.antt =====
-- The serial console of kernel/drivers/serial.c. A text is the list of its bytes, without the NUL.
-- The formatter yields the bytes that it passes to `serial_putc`, and `none` where the source reads
-- past the end of the format, takes an argument that is not there, or overruns its buffer.
pub mod Digits
pub mod Format
pub mod Uart
mod Tests
use aion_os.Prelude.{
  ℕ, zero, suc, ◌+◌, ◌-◌, ◌*◌, ◌/◌, ◌%◌, ◌^◌, Bool, true, false, Option, none, some, List, [], ◌∷◌,
  ◌++◌, ltb, leb, ◌==◌, if◌then◌else◌, ◌||◌,
}
use aion_os.Kernel.Io.{Ports}

abbrev pub com1 : ℕ
com1 = 0x3f8

-- "0123456789abcdef"[n]
pub digit_char : ℕ → ℕ
digit_char n = if ltb n 10 then 48 + n else 87 + n

-- The loop of `print_uint` that fills `buf`, with the bytes of `buf` that are left. The list holds
-- `buf` from its end on, in the order in which it is printed.
pub fill_digits : ℕ → ℕ → ℕ → List ℕ → Option (List ℕ)
fill_digits zero v base buf = if v == 0 then some buf else none
fill_digits (suc n) v base buf = elim (v == 0) [
  | true ↦ some buf
  | false ↦ fill_digits n (v / base) base (digit_char (v % base) ∷ buf)
]

pub print_uint : ℕ → ℕ → Option (List ℕ)
print_uint v base = if v == 0 then some (b'0' ∷ []) else fill_digits 64 v base []

-- An argument of `serial_printf`: a text, or a number of 64 bits.
pub data Arg : Type 0 where
  text : List ℕ → Arg
  word : ℕ → Arg

-- Output before that of the rest of the format.
pub emit : Option (List ℕ) → Option (List ℕ) → Option (List ℕ)
emit none rest = none
emit (some out) none = none
emit (some out) (some rest) = some (out ++ rest)

-- `%d`: a negative number is printed as `-` and its magnitude.
pub print_int : ℕ → Option (List ℕ)
print_int v =
    if ltb v (2 ^ 63) then print_uint v 10 else emit (some (b'-' ∷ [])) (print_uint (2 ^ 64 - v) 10)

-- Where the loop of `serial_printf` stands in the format: in plain text, behind `%`, behind `%l`, and
-- behind `%ll`.
pub data Mode : Type 0 where
  plain : Mode
  percent : Mode
  long : Mode
  long_long : Mode

-- What a conversion character does: it takes a number, a text or nothing.
pub data Conversion : Type 0 where
  number : (ℕ → Option (List ℕ)) → Conversion
  string : Conversion
  literal : List ℕ → Conversion
  modifier : Mode → Conversion

-- The `switch` of `serial_printf`. A character without a case prints nothing.
pub conversion : ℕ → Conversion
conversion c =
    if c == b's'
    then string
    else if c == b'd'
    then number print_int
    else if c == b'u'
    then number (λ v. print_uint v 10)
    else if c == b'x' || c == b'X'
    then number (λ v. print_uint v 16)
    else if c == b'l'
    then modifier long
    else if c == b'c'
    then number (λ v. some (v % 2 ^ 8 ∷ []))
    else if c == b'%'
    then literal (b'%' ∷ [])
    else literal []

-- The case of `l`, behind the second `l` or where there is none.
pub long_conversion : ℕ → Conversion
long_conversion c =
    if c == b'u'
    then number (λ v. print_uint v 10)
    else if c == b'd'
    then number print_int
    else literal []

-- The conversion of the character `c`, where the loop stands.
pub conversion_at : Mode → ℕ → Conversion
conversion_at plain c = if c == b'%' then modifier percent else literal (c ∷ [])
conversion_at percent c = conversion c
conversion_at long c = if c == b'l' then modifier long_long else long_conversion c
conversion_at long_long c = long_conversion c

-- One conversion, given what the rest of the format prints from a mode and with some arguments.
pub convert : Conversion → List Arg → (Mode → List Arg → Option (List ℕ)) → Option (List ℕ)
convert (number print) (word v ∷ args) rest = emit (print v) (rest plain args)
convert (number print) args rest = none
convert string (text s ∷ args) rest = emit (some s) (rest plain args)
convert string args rest = none
convert (literal out) args rest = emit (some out) (rest plain args)
convert (modifier mode) args rest = rest mode args

-- The loop of `serial_printf`. In the middle of a conversion the end of the format is stepped over.
pub format_from : Mode → List ℕ → List Arg → Option (List ℕ)
format_from plain [] args = some []
format_from percent [] args = none
format_from long [] args = none
format_from long_long [] args = none
format_from mode (c ∷ fmt) args =
    convert (conversion_at mode c) args (λ mode' args'. format_from mode' fmt args')

pub serial_printf : List ℕ → List Arg → Option (List ℕ)
serial_printf fmt args = format_from plain fmt args

abbrev pub then_send : {D : Type 0} → Option D → (D → Option D) → Option D
then_send none f = none
then_send (some d) f = f d

module _ {D : Type 0} (io : Ports D) where
  pub serial_init : D → D
  serial_init d = io.outb (com1 + 4) 0x0b (
      io.outb (com1 + 2) 0xc7 (
        io.outb (com1 + 3) 0x03 (
          io.outb (com1 + 1) 0x00
            (io.outb (com1 + 0) 0x03 (io.outb (com1 + 3) 0x80 (io.outb (com1 + 1) 0x00 d))))))

  -- `while (!serial_tx_ready());` and the `outb` behind it. `none`: the port was not ready at any of
  -- the polls.
  pub send_byte : ℕ → ℕ → D → Option D
  send_byte zero c d = none
  send_byte (suc n) c d =
      let (status, d') = io.inb (com1 + 5) d in
      elim (status / 2 ^ 5 % 2 == 1) [ true ↦ some (io.outb com1 c d') | false ↦ send_byte n c d' ]

  pub serial_putc : ℕ → ℕ → D → Option D
  unfolding send_byte
  serial_putc polls c d =
      then_send (send_byte polls c d) (λ d'. if c == 10 then send_byte polls 13 d' else some d')

  pub serial_puts : ℕ → List ℕ → D → Option D
  serial_puts polls [] d = some d
  serial_puts polls (c ∷ s) d = then_send (serial_putc polls c d) (λ d'. serial_puts polls s d')
