-- ===== src/Kernel/Arch/Idt.antt =====
-- The interrupt descriptor table and the handlers, kernel/arch/x86_64/idt.c.
pub mod Gates
pub mod Handlers
pub mod Cascade
mod Tests
use aion_os.Prelude.{
  ℕ, ◌+◌, ◌-◌, ◌*◌, ◌/◌, ◌%◌, ◌^◌, Bool, true, false, ◌&&◌, Option, none, some, ltb, leb, ◌==◌,
  if◌then◌else◌, bit_or,
}
use aion_os.Kernel.Io.{Ports}
use aion_os.Kernel.Arch.Pic.{
  pic1_data, pic2_data, irq_base, pic_remap, pic_send_eoi, pic_mask, pic_unmask,
}

pub record IdtEntry : Type 0 where
  pub offset_low : ℕ
  pub selector : ℕ
  pub ist : ℕ
  pub type_attr : ℕ
  pub offset_mid : ℕ
  pub offset_high : ℕ
  pub reserved : ℕ

-- The array `idt`, by vector. It starts zeroed.
abbrev pub Idt : Type 0
Idt = ℕ → IdtEntry

abbrev pub idt_present : ℕ
idt_present = 0x80

abbrev pub idt_ring0 : ℕ
idt_ring0 = 0

abbrev pub idt_int_gate : ℕ
idt_int_gate = 0x0e

abbrev pub idt_trap_gate : ℕ
idt_trap_gate = 0x0f

pub gate : ℕ → ℕ → ℕ → IdtEntry
gate handler type_attr ist = record {
  offset_low = handler % 2 ^ 16;
  selector = 0x08;
  ist = ist;
  type_attr = bit_or (bit_or idt_present idt_ring0) type_attr;
  offset_mid = handler / 2 ^ 16 % 2 ^ 16;
  offset_high = handler / 2 ^ 32 % 2 ^ 32;
  reserved = 0;
}

pub idt_set_entry : ℕ → ℕ → ℕ → ℕ → Idt → Idt
idt_set_entry vec handler type_attr ist idt v =
    if vec == v then gate handler type_attr ist else idt v

-- The entries that `idt_init` installs, in its order. `isr_stub` and `irq_stub` are the addresses of
-- the assembly stubs.
module _ (isr_stub irq_stub : ℕ → ℕ) where
  exception_gates : Idt → Idt
  exception_gates idt =
      let i0 = idt_set_entry 0 (isr_stub 0) idt_int_gate 0 idt in
      let i1 = idt_set_entry 1 (isr_stub 1) idt_int_gate 0 i0 in
      let i2 = idt_set_entry 2 (isr_stub 2) idt_int_gate 0 i1 in
      let i3 = idt_set_entry 3 (isr_stub 3) idt_trap_gate 0 i2 in
      let i4 = idt_set_entry 4 (isr_stub 4) idt_int_gate 0 i3 in
      let i5 = idt_set_entry 5 (isr_stub 5) idt_int_gate 0 i4 in
      let i6 = idt_set_entry 6 (isr_stub 6) idt_int_gate 0 i5 in
      let i7 = idt_set_entry 7 (isr_stub 7) idt_int_gate 0 i6 in
      let i8 = idt_set_entry 8 (isr_stub 8) idt_int_gate 1 i7 in
      let i13 = idt_set_entry 13 (isr_stub 13) idt_int_gate 0 i8 in
      idt_set_entry 14 (isr_stub 14) idt_int_gate 0 i13

  irq_gates : Idt → Idt
  irq_gates idt =
      let i0 = idt_set_entry 0x20 (irq_stub 0) idt_int_gate 0 idt in
      let i1 = idt_set_entry 0x21 (irq_stub 1) idt_int_gate 0 i0 in
      let i2 = idt_set_entry 0x22 (irq_stub 2) idt_int_gate 0 i1 in
      let i3 = idt_set_entry 0x23 (irq_stub 3) idt_int_gate 0 i2 in
      let i4 = idt_set_entry 0x24 (irq_stub 4) idt_int_gate 0 i3 in
      let i8 = idt_set_entry 0x28 (irq_stub 8) idt_int_gate 0 i4 in
      let i9 = idt_set_entry 0x29 (irq_stub 9) idt_int_gate 0 i8 in
      let i11 = idt_set_entry 0x2b (irq_stub 11) idt_int_gate 0 i9 in
      let i12 = idt_set_entry 0x2c (irq_stub 12) idt_int_gate 0 i11 in
      let i14 = idt_set_entry 0x2e (irq_stub 14) idt_int_gate 0 i12 in
      idt_set_entry 0x2f (irq_stub 15) idt_int_gate 0 i14

  pub idt_gates : Idt → Idt
  unfolding exception_gates irq_gates idt_set_entry
  idt_gates idt = irq_gates (exception_gates idt)

-- The arrays `user_handlers` and `user_handler_ctx`. A handler is given its vector and its context,
-- and acts on the machine.
pub record UserHandlers (D : Type 0) : Type 0 where
  pub handler : ℕ → Option (ℕ → ℕ → D → D)
  pub ctx : ℕ → ℕ

abbrev pub is_irq : ℕ → Bool
is_irq vec = leb irq_base vec && ltb vec (irq_base + 16)

-- `if (user_handlers[vec] != NULL) user_handlers[vec](vec, user_handler_ctx[vec]);`
pub call_handler : {D : Type 0} → Option (ℕ → ℕ → D → D) → ℕ → ℕ → D → D
call_handler none vec ctx d = d
call_handler (some f) vec ctx d = f vec ctx d

module _ {D : Type 0} (io : Ports D) where
  -- The machine's part of `idt_init`, before `lidt` and `sti`.
  pub idt_init_pic : D → D
  idt_init_pic d = io.outb pic2_data 0xff (io.outb pic1_data 0xff (pic_remap io d))

  pub idt_dispatch : ℕ → UserHandlers D → D → D
  idt_dispatch vec h d =
      let d' = call_handler (h.handler vec) vec (h.ctx vec) d in
      if is_irq vec then pic_send_eoi io (vec - irq_base) d' else d'

  unfoldable pub idt_register_handler :
      ℕ → (ℕ → ℕ → D → D) → ℕ → UserHandlers D → D → UserHandlers D × D
  idt_register_handler vec f c h d = (
    record {
      handler = λ v. if vec == v then some f else h.handler v;
      ctx = λ v. if vec == v then c else h.ctx v;
    },
    if is_irq vec then pic_unmask io (vec - irq_base) d else d,
  )

  pub idt_unregister_handler : ℕ → UserHandlers D → D → UserHandlers D × D
  idt_unregister_handler vec h d = (
    record {
      handler = λ v. if vec == v then none else h.handler v;
      ctx = λ v. if vec == v then 0 else h.ctx v;
    },
    if is_irq vec then pic_mask io (vec - irq_base) d else d,
  )
