-- ===== src/Kernel/Arch/Pic/Masks.antt =====
-- What masking and unmasking a line does to the mask registers of the two controllers.
use aion_os.Prelude.{
  ℕ, ◌<◌, ◌≡◌, ◌⊎◌, refl, ◌∙◌, true, false, ◌&&◌, inl, inr, arith, ltb_ge, lt→ltb, ◌==◌,
  if◌then◌else◌, dec_lt,
}
use aion_os.Prelude.Bytes.{
  bit, set_bit, clear_bit, set_bit-lt, clear_bit-lt, bit-set_bit, bit-clear_bit,
}
use aion_os.Kernel.Io.{Ports}
use aion_os.Kernel.Arch.Pic.{
  pic1_cmd, pic2_cmd, pic_eoi, pic1_data, pic2_data, port_of, line_of, pic_mask, pic_unmask,
  pic_send_eoi,
}

abbrev pub IsData : ℕ → Type 0
IsData p = (p ≡ pic1_data) ⊎ (p ≡ pic2_data)

-- What the controllers' data sheet says of an initialised pair: a data port reads and writes the
-- mask register of its controller, a read changes nothing, and an end-of-interrupt command leaves
-- the masks alone.
pub record HasMasks {D : Type 0} (io : Ports D) (IsReady : D → Type 0) (mask : ℕ → D → ℕ)
    : Type 0 where
  pub byte : (p : ℕ) (d : D) → IsReady d → mask p d < 256
  pub read : (p : ℕ) (d : D) → IsData p → IsReady d → io.inb p d ≡ (mask p d, d)
  pub write_ready : (p v : ℕ) (d : D) → IsData p → IsReady d → v < 256 → IsReady (io.outb p v d)
  pub write :
      (p v q : ℕ) (d : D)
      → IsData p
      → IsReady d
      → v < 256
      → mask q (io.outb p v d) ≡ (if p == q then v else mask q d)
  pub eoi_ready :
      (p : ℕ) (d : D) → (p ≡ pic1_cmd) ⊎ (p ≡ pic2_cmd) → IsReady d → IsReady (io.outb p pic_eoi d)
  pub eoi :
      (p q : ℕ) (d : D)
      → (p ≡ pic1_cmd) ⊎ (p ≡ pic2_cmd)
      → IsReady d
      → mask q (io.outb p pic_eoi d) ≡ mask q d

port_of-IsData : (irq : ℕ) → IsData (port_of irq)
port_of-IsData irq = elim (dec_lt irq 8) [
  | yes h ↦ rw (lt→ltb irq 8 h) (inl refl)
  | no h ↦ rw (ltb_ge irq 8 (omega arith)) (inr refl)
]

line_of-lt : (irq : ℕ) → irq < 16 → line_of irq < 8
line_of-lt irq h = ground arith

module _ {D : Type 0} {io : Ports D} {IsReady : D → Type 0} {mask : ℕ → D → ℕ}
    (laws : HasMasks io IsReady mask) where
  -- Unmasking interrupt `irq` clears its line in the mask of its controller, and changes no other
  -- line of either controller.
  pub mask-pic_unmask :
      (irq : ℕ) (d : D)
      → irq < 16
      → IsReady d
      → IsReady (pic_unmask io irq d)
        × ((q j : ℕ)
            → j < 8
            → bit (mask q (pic_unmask io irq d)) j
              ≡ (if port_of irq == q && line_of irq == j then false else bit (mask q d) j))
  unfolding pic_unmask
  mask-pic_unmask irq d h r =
      let p = port_of irq in
      let dp = port_of-IsData irq in
      let hl = line_of-lt irq h in
      let hb = laws.byte p d r in
      let small = clear_bit-lt (mask p d) (line_of irq) hb hl in
      rw (laws.read p d dp r, pic_unmask)
        (
          laws.write_ready p _ d dp r small,
          λ q j hj. ground (
            arith,
            laws.write p (clear_bit (mask p d) (line_of irq)) q d dp r small,
            bit-clear_bit (mask p d) (line_of irq) hb hl j hj,
          ),
        )

  -- Masking interrupt `irq` sets its line in the mask of its controller, and changes no other
  -- line of either controller.
  pub mask-pic_mask :
      (irq : ℕ) (d : D)
      → irq < 16
      → IsReady d
      → IsReady (pic_mask io irq d)
        × ((q j : ℕ)
            → j < 8
            → bit (mask q (pic_mask io irq d)) j
              ≡ (if port_of irq == q && line_of irq == j then true else bit (mask q d) j))
  unfolding pic_mask
  mask-pic_mask irq d h r =
      let p = port_of irq in
      let dp = port_of-IsData irq in
      let hl = line_of-lt irq h in
      let hb = laws.byte p d r in
      let small = set_bit-lt (mask p d) (line_of irq) hb hl in
      rw (laws.read p d dp r, pic_mask)
        (
          laws.write_ready p _ d dp r small,
          λ q j hj. ground (
            arith,
            laws.write p (set_bit (mask p d) (line_of irq)) q d dp r small,
            bit-set_bit (mask p d) (line_of irq) hb hl j hj,
          ),
        )

  -- An end-of-interrupt command changes no mask.
  pub mask-pic_send_eoi :
      (irq q : ℕ) (d : D)
      → IsReady d
      → IsReady (pic_send_eoi io irq d) × (mask q (pic_send_eoi io irq d) ≡ mask q d)
  unfolding pic_send_eoi
  mask-pic_send_eoi irq q d r = elim (dec_lt irq 8) [
    | yes h ↦
        rw (lt→ltb irq 8 h, pic_send_eoi)
          (laws.eoi_ready pic1_cmd d (inl refl) r, laws.eoi pic1_cmd q d (inl refl) r)
    | no h ↦
        let r2 = laws.eoi_ready pic2_cmd d (inr refl) r in
        rw (ltb_ge irq 8 (omega arith), pic_send_eoi)
          (
            laws.eoi_ready pic1_cmd _ (inl refl) r2,
            laws.eoi pic1_cmd q _ (inl refl) r2 ∙ laws.eoi pic2_cmd q d (inr refl) r,
          )
  ]
