-- ===== src/Kernel/Arch/Idt/Tests.antt =====
-- The interrupt tables over a model of the two controllers that keeps their masks.
use aion_os.Prelude.{
  ℕ, ◌-◌, ◌<◌, ◌≡◌, refl, true, false, ◌&&◌, none, List, [], ◌∷◌, arith, ◌==◌, if◌then◌else◌, inl,
  inr,
}
use aion_os.Prelude.Bytes.{bit}
use aion_os.Kernel.Io.{Ports}
use aion_os.Kernel.Arch.Pic.{
  irq_base, pic1_data, pic2_data, pic_remap, icw_sequence, port_of, line_of,
}
use aion_os.Kernel.Arch.Pic.Masks.{HasMasks, IsData}
use aion_os.Kernel.Arch.Idt.{
  Idt, UserHandlers, idt_dispatch, idt_register_handler, idt_unregister_handler, idt_init_pic,
}
use aion_os.Kernel.Arch.Idt.Handlers.{
  registers, unregisters, run_calls, idt_dispatch-last, mask-register-unregister,
}
use aion_os.Kernel.Arch.Idt.Cascade.{Registration, register_all, idt_init-cascade}

-- The last byte that was written to each port.
abbrev Latches : Type 0
Latches = ℕ → ℕ

abbrev latches : Ports Latches
latches = record {
  inb = λ p d. (d p, d);
  outb = λ p v d q. if p == q then v else d q;
  inl = λ p d. (0, d);
  outl = λ p v d. d;
}

-- The masks are bytes.
abbrev Settled : Latches → Type 0
Settled d = (d pic1_data < 256) × (d pic2_data < 256)

-- A port other than the two data ports has no mask.
abbrev mask_at : ℕ → Latches → ℕ
mask_at p d = if p == pic1_data then d pic1_data else if p == pic2_data then d pic2_data else 0

read_mask : (p : ℕ) (d : Latches) → IsData p → latches.inb p d ≡ (mask_at p d, d)
read_mask p d (inl e) = rw e
read_mask p d (inr e) = rw e

latches-HasMasks : HasMasks latches Settled mask_at
latches-HasMasks = record {
  byte = λ p d r. ground arith;
  read = λ p d i r. read_mask p d i;
  write_ready = λ p v d i r h. ground arith;
  write = λ p v q d i r h. ground arith;
  eoi_ready = λ p d i r. ground arith;
  eoi = λ p q d i r. ground arith;
}

abbrev no_gates : Idt
no_gates v = record {
  offset_low = 0;
  selector = 0;
  ist = 0;
  type_attr = 0;
  offset_mid = 0;
  offset_high = 0;
  reserved = 0;
}

abbrev no_handlers : UserHandlers Latches
no_handlers = record { handler = λ v. none; ctx = λ v. 0 }

abbrev closed : Latches
closed p = 255

-- A driver that writes its context to port 0x60.
abbrev driver : ℕ → ℕ → Latches → Latches
driver vec c d = latches.outb 0x60 c d

idt_dispatch-last_example :
    let calls = unregisters 0x2b ∷ (registers 0x2b driver 7 ∷ (registers 0x20 driver 9 ∷ [])) in
    idt_dispatch latches 0x2b (run_calls latches calls no_handlers closed).0 closed
    ≡ latches.outb 0x20 0x20 (latches.outb 0xa0 0x20 (driver 0x2b 7 closed))
idt_dispatch-last_example =
    idt_dispatch-last latches (unregisters 0x2b ∷ []) (registers 0x2b driver 7)
      (registers 0x20 driver 9 ∷ []) no_handlers closed closed (omega arith)

mask-register-unregister_example :
    let (h, d) = idt_register_handler latches 0x2b driver 7 no_handlers closed in
    let e = (idt_unregister_handler latches 0x2b h d).1 in
    let irq = 0x2b - irq_base in
    (bit (mask_at pic2_data d) 3 ≡ (
      if port_of irq == pic2_data && line_of irq == 3
      then false
      else bit (mask_at pic2_data closed) 3))
    × (bit (mask_at pic2_data e) 3 ≡ (
        if port_of irq == pic2_data && line_of irq == 3
        then true
        else bit (mask_at pic2_data closed) 3))
mask-register-unregister_example =
    mask-register-unregister latches-HasMasks 0x2b driver 7 no_handlers closed refl (omega arith)
      pic2_data 3 (omega arith)

abbrev network_only : List (Registration Latches)
network_only = record { vec = 0x2b; handler = driver; ctx = 7 } ∷ []

remapped-Settled : Settled (pic_remap latches closed)
unfolding pic_remap icw_sequence
remapped-Settled = omega arith

idt_init-cascade_example :
    bit
      (mask_at pic1_data
        (register_all latches network_only no_handlers (idt_init_pic latches closed)).1)
      2
    ≡ true
idt_init-cascade_example =
    idt_init-cascade latches-HasMasks network_only no_handlers closed remapped-Settled (omega arith)
