-- ===== src/Kernel/Drivers/Serial/Uart.antt =====
-- `serial_puts` on a UART: what arrives on the line.
use mathlib.Core.List.{append_assoc, append-nil}
use aion_os.Prelude.{
  ℕ, zero, suc, ◌+◌, ◌-◌, ◌/◌, ◌%◌, ◌^◌, ◌≤◌, ◌<◌, ◌≡◌, refl, ap, sym, ◌∙◌, Option, some, arith,
  List, [], ◌∷◌, ◌++◌, ◌==◌, if◌then◌else◌, Bool-cases, ==_iff, inl, inr,
}
use aion_os.Kernel.Io.{Ports}
use aion_os.Kernel.Drivers.Serial.{com1, send_byte, serial_putc, serial_puts, then_send}

-- What the driver relies on: bit 5 of the line status says that the transmitter is empty, reading
-- it brings that nearer, and a byte that is written then goes out and occupies it for at most
-- `limit` further readings.
pub record IsUart {D : Type 0} (io : Ports D) (busy : D → ℕ) (sent : D → List ℕ) (limit : ℕ)
    : Type 0 where
  pub status : (d : D) → (io.inb (com1 + 5) d).0 / 2 ^ 5 % 2 ≡ (if busy d == 0 then 1 else 0)
  pub poll : (d : D) → busy (io.inb (com1 + 5) d).1 ≡ busy d - 1
  pub poll_sent : (d : D) → sent (io.inb (com1 + 5) d).1 ≡ sent d
  pub write_sent : (c : ℕ) (d : D) → busy d ≡ 0 → sent (io.outb com1 c d) ≡ sent d ++ c ∷ []
  pub write_busy : (c : ℕ) (d : D) → busy (io.outb com1 c d) ≤ limit

-- A line feed is followed by a carriage return.
abbrev pub line_bytes : ℕ → List ℕ
line_bytes c = if c == 10 then 10 ∷ 13 ∷ [] else c ∷ []

pub on_line : List ℕ → List ℕ
on_line [] = []
on_line (c ∷ s) = line_bytes c ++ on_line s

module _ {D : Type 0} {io : Ports D} {busy : D → ℕ} {sent : D → List ℕ} {limit : ℕ}
    (uart : IsUart io busy sent limit) where
  -- The bytes `out` have gone out, and the transmitter is busy within its limit.
  Sends : List ℕ → D → Option D → Type 0
  Sends out d res = (e : D) × (res ≡ some e) × (sent e ≡ sent d ++ out) × (busy e ≤ limit)

  send_byte-Sends : (n c : ℕ) (d : D) → busy d < n → Sends (c ∷ []) d (send_byte io n c d)
  unfolding send_byte Sends
  send_byte-Sends zero c d h = absurd (omega arith)
  send_byte-Sends (suc n) c d h =
      let d' : D = (io.inb (com1 + 5) d).1 in
      elim (Bool-cases ((io.inb (com1 + 5) d).0 / 2 ^ 5 % 2 == 1)) [
        | inl ready ↦
            rw (ready, send_byte)
              (
                io.outb com1 c d',
                refl,
                uart.write_sent c d' (ground (arith, uart.status d, uart.poll d))
                    ∙ ap (λ s. s ++ c ∷ []) (uart.poll_sent d),
                uart.write_busy c d',
              )
        | inr not_ready ↦
            let (e, done, out, idle) =
              send_byte-Sends n c d' (ground (arith, uart.status d, uart.poll d)) in
            rw (not_ready, send_byte)
              (e, done, out ∙ ap (λ s. s ++ c ∷ []) (uart.poll_sent d), idle)
      ]

  then_send-Sends :
      (a b : List ℕ) (d : D) (res : Option D) (f : D → Option D)
      → Sends a d res
      → ((e : D) → busy e ≤ limit → Sends b e (f e))
      → Sends (a ++ b) d (then_send res f)
  unfolding Sends
  then_send-Sends a b d res f (e, done, out, idle) next =
      let (e', done', out', idle') = next e idle in
      (
        e',
        ap (λ r. then_send r f) done ∙ done',
        out' ∙ ap (λ s. s ++ b) out ∙ append_assoc (sent d) a b,
        idle',
      )

  Sends-nothing : (e : D) → busy e ≤ limit → Sends [] e (some e)
  unfolding Sends
  Sends-nothing e free = (e, refl, sym (append-nil (sent e)), free)

  serial_putc-Sends :
      (n c : ℕ) (d : D) → limit < n → busy d ≤ limit → Sends (line_bytes c) d (serial_putc io n c d)
  unfolding serial_putc
  serial_putc-Sends n c d h idle = elim (Bool-cases (c == 10)) [
    | inl feed ↦
        rw (feed, serial_putc, (==_iff c 10).0 feed)
          (then_send-Sends (10 ∷ []) (13 ∷ []) d (send_byte io n 10 d) (λ e. send_byte io n 13 e)
            (send_byte-Sends n 10 d (omega arith)) (λ e free. send_byte-Sends n 13 e (omega arith)))
    | inr other ↦
        rw (other, serial_putc)
          (then_send-Sends (c ∷ []) [] d (send_byte io n c d) (λ e. some e)
            (send_byte-Sends n c d (omega arith)) (λ e free. Sends-nothing e free))
  ]

  -- The UART gets every byte of the text in order, with a carriage return behind each line feed,
  -- when it stays busy for a limited time and is polled more often than that.
  pub serial_puts-on_line :
      (n : ℕ) (s : List ℕ) (d : D)
      → limit < n
      → busy d ≤ limit
      → (e : D) × (serial_puts io n s d ≡ some e)
        × (sent e ≡ sent d ++ on_line s)
        × (busy e ≤ limit)
  unfolding serial_puts on_line Sends
  serial_puts-on_line n [] d h idle = (d, refl, sym (append-nil (sent d)), idle)
  serial_puts-on_line n (c ∷ s) d h idle =
      then_send-Sends (line_bytes c) (on_line s) d (serial_putc io n c d) (serial_puts io n s)
        (serial_putc-Sends n c d h idle) (λ e free. serial_puts-on_line n s e h free)
