-- ===== src/Kernel/Arch/Idt/Cascade.antt =====
-- The cascade line: the second controller interrupts the processor only through line 2 of the
-- first.
use aion_os.Prelude.{ℕ, ◌-◌, ◌≡◌, ◌≢◌, refl, true, List, [], ◌∷◌, arith, inl, inr, Bool-cases}
use aion_os.Prelude.Bytes.{bit}
use aion_os.Kernel.Io.{Ports}
use aion_os.Kernel.Arch.Pic.{irq_base, pic1_data, pic2_data, pic_remap}
use aion_os.Kernel.Arch.Pic.Masks.{HasMasks, mask-pic_unmask}
use aion_os.Kernel.Arch.Idt.{UserHandlers, is_irq, idt_init_pic, idt_register_handler}

-- A call of `idt_register_handler`.
pub record Registration (D : Type 0) : Type 0 where
  pub vec : ℕ
  pub handler : ℕ → ℕ → D → D
  pub ctx : ℕ

module _ {D : Type 0} (io : Ports D) where
  pub register_all : List (Registration D) → UserHandlers D → D → UserHandlers D × D
  register_all [] h d = (h, d)
  register_all (r ∷ rs) h d =
      let (h', d') = idt_register_handler io r.vec r.handler r.ctx h d in register_all rs h' d'

abbrev pub NoneAt : {D : Type 0} → ℕ → List (Registration D) → Type 0
NoneAt vec [] = Unit
NoneAt vec (r ∷ rs) = (r.vec ≢ vec) × NoneAt vec rs

module _ {D : Type 0} {io : Ports D} {IsReady : D → Type 0} {mask : ℕ → D → ℕ}
    (laws : HasMasks io IsReady mask) where
  keep_cascade :
      (r : Registration D) (h : UserHandlers D) (d : D)
      → r.vec ≢ 0x22
      → IsReady d
      → bit (mask pic1_data d) 2 ≡ true
      → let d' = (idt_register_handler io r.vec r.handler r.ctx h d).1 in
        IsReady d' × (bit (mask pic1_data d') 2 ≡ true)
  unfolding idt_register_handler
  keep_cascade r h d ne ready closed = elim (Bool-cases (is_irq r.vec)) [
    | inl irq ↦
        let (ready', opened) = mask-pic_unmask laws (r.vec - irq_base) d (ground arith) ready in
        rw irq (ready', ground (arith, opened pic1_data 2 (omega arith)))
    | inr other ↦ rw other (ready, closed)
  ]

  register_all-cascade :
      (rs : List (Registration D)) (h : UserHandlers D) (d : D)
      → NoneAt 0x22 rs
      → IsReady d
      → bit (mask pic1_data d) 2 ≡ true
      → bit (mask pic1_data (register_all io rs h d).1) 2 ≡ true
  unfolding register_all
  register_all-cascade [] h d none_at ready closed = closed
  register_all-cascade (r ∷ rs) h d (ne, rest) ready closed =
      let (ready', closed') = keep_cascade r h d ne ready closed in
      register_all-cascade rs _ _ rest ready' closed'

  -- `idt_init` masks every line, and a registration opens the line of its own vector alone: so long
  -- as no handler is registered at vector 0x22, the cascade line stays masked, whatever handlers of
  -- the second controller (vectors 0x28 to 0x2F) are registered.
  pub idt_init-cascade :
      (rs : List (Registration D)) (h : UserHandlers D) (d : D)
      → IsReady (pic_remap io d)
      → NoneAt 0x22 rs
      → bit (mask pic1_data (register_all io rs h (idt_init_pic io d)).1) 2 ≡ true
  unfolding idt_init_pic
  idt_init-cascade rs h d ready none_at =
      let r1 = laws.write_ready pic1_data 0xff _ (inl refl) ready (omega arith) in
      let r2 = laws.write_ready pic2_data 0xff _ (inr refl) r1 (omega arith) in
      let e2 = laws.write pic2_data 0xff pic1_data _ (inr refl) r1 (omega arith) in
      let e1 = laws.write pic1_data 0xff pic1_data _ (inl refl) ready (omega arith) in
      register_all-cascade rs h _ none_at r2 (ground (arith, e1, e2))
