-- ===== src/Kernel/Arch/Idt/Gates.antt =====
-- What the processor reads out of the interrupt descriptor table.
use aion_os.Prelude.{ℕ, ◌+◌, ◌*◌, ◌/◌, ◌%◌, ◌^◌, ◌<◌, ◌≡◌, refl, Bool, ◌&&◌, ◌||◌, arith, leb, ◌==◌}
use aion_os.Kernel.Arch.Idt.{IdtEntry, Idt, gate, idt_gates}

abbrev pub offset_of : IdtEntry → ℕ
offset_of e = e.offset_low + e.offset_mid * 2 ^ 16 + e.offset_high * 2 ^ 32

-- The present bit of a gate.
abbrev pub is_present : IdtEntry → Bool
is_present e = e.type_attr / 128 % 2 == 1

-- The processor reads back the whole 64-bit address of the handler, in the kernel's code segment.
pub gate-decode :
    (handler type_attr ist : ℕ)
    → handler < 2 ^ 64
    → let e = gate handler type_attr ist in
      (offset_of e ≡ handler) × (e.selector ≡ 8) × (e.ist ≡ ist) × (e.reserved ≡ 0)
unfolding gate
gate-decode handler type_attr ist h = (omega arith, refl, refl, refl)

-- The vectors for which `idt_init` installs a gate.
abbrev pub has_gate : ℕ → Bool
has_gate v =
    leb v 8
    || (v == 13 || v == 14)
    || (leb 0x20 v && leb v 0x24)
    || (v == 0x28 || v == 0x29 || v == 0x2b || v == 0x2c || v == 0x2e || v == 0x2f)

module _ (isr_stub irq_stub : ℕ → ℕ) where
  -- In a zeroed table exactly these vectors have a present gate after `idt_init`; every other
  -- vector below 256 is left without one.
  pub idt_gates-present :
      (idt : Idt) (v : ℕ)
      → (idt v).type_attr ≡ 0
      → is_present (idt_gates isr_stub irq_stub idt v) ≡ has_gate v
  unfolding idt_gates gate
  idt_gates-present idt v zeroed = ground arith
