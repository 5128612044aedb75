-- ===== src/Kernel/Arch/Pic.antt =====
-- The 8259A interrupt controllers, as kernel/arch/x86_64/idt.c drives them.
pub mod Masks
use aion_os.Prelude.{ℕ, ◌+◌, ◌-◌, Bool, ltb, if◌then◌else◌}
use aion_os.Prelude.Bytes.{set_bit, clear_bit}
use aion_os.Kernel.Io.{Ports, io_wait}

abbrev pub pic1_cmd : ℕ
pic1_cmd = 0x20

abbrev pub pic1_data : ℕ
pic1_data = 0x21

abbrev pub pic2_cmd : ℕ
pic2_cmd = 0xa0

abbrev pub pic2_data : ℕ
pic2_data = 0xa1

abbrev pub pic_eoi : ℕ
pic_eoi = 0x20

-- Hardware interrupt 0 has this vector.
abbrev pub irq_base : ℕ
irq_base = 0x20

-- The data port and the line of an interrupt below 16.
abbrev pub port_of : ℕ → ℕ
port_of irq = if ltb irq 8 then pic1_data else pic2_data

abbrev pub line_of : ℕ → ℕ
line_of irq = if ltb irq 8 then irq else irq - 8

module _ {D : Type 0} (io : Ports D) where
  open io use {inb, outb}

  -- The writes between the two reads of the masks and their restoration.
  unfoldable pub icw_sequence : D → D
  icw_sequence d =
      let d1 = outb pic2_cmd 0x11 (outb pic1_cmd 0x11 d) in
      let d2 = outb pic2_data (irq_base + 8) (outb pic1_data irq_base (io_wait io d1)) in
      let d3 = outb pic2_data 0x02 (outb pic1_data 0x04 (io_wait io d2)) in
      let d4 = outb pic2_data 0x01 (outb pic1_data 0x01 (io_wait io d3)) in io_wait io d4

  unfoldable pub pic_remap : D → D
  unfolding icw_sequence
  pic_remap d =
      let (mask1, d1) = inb pic1_data d in
      let (mask2, d2) = inb pic2_data d1 in
      outb pic2_data mask2 (outb pic1_data mask1 (icw_sequence d2))

  unfoldable pub pic_send_eoi : ℕ → D → D
  pic_send_eoi irq d =
      let d' = if ltb irq 8 then d else outb pic2_cmd pic_eoi d in outb pic1_cmd pic_eoi d'

  pub pic_mask : ℕ → D → D
  pic_mask irq d =
      let (m, d') = inb (port_of irq) d in outb (port_of irq) (set_bit m (line_of irq)) d'

  pub pic_unmask : ℕ → D → D
  pic_unmask irq d =
      let (m, d') = inb (port_of irq) d in outb (port_of irq) (clear_bit m (line_of irq)) d'
