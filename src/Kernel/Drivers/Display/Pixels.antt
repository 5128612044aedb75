-- ===== src/Kernel/Drivers/Display/Pixels.antt =====
-- `display_set_pixel`: which word of memory a pixel is, and that no other word is written.
use aion_os.Prelude.{
  ℕ, ◌+◌, ◌*◌, ◌^◌, ◌≤◌, ◌<◌, ◌≡◌, ap, ◌&&◌, ◌||◌, ◌⊎◌, inl, inr, arith, leb, ◌==◌, if◌then◌else◌,
  Bool-cases, dec_lt,
}
use aion_os.Kernel.Drivers.Display.{Display, address, display_set_pixel}

-- The rows fit into the pitch and the framebuffer into the address space.
pub record IsFrame (s : Display) : Type 0 where
  pub rows : 4 * s.width ≤ s.pitch
  pub small : s.height * s.pitch < 2 ^ 32
  pub below : s.base + s.height * s.pitch ≤ 2 ^ 64

-- `a` is no address inside of the framebuffer.
abbrev pub Outside : Display → ℕ → Type 0
Outside s a = (a < s.base) ⊎ (s.base + s.height * s.pitch ≤ a)

-- `t` differs from `s` in the framebuffer and the cursor only.
pub record Drawn (s t : Display) : Type 0 where
  pub base : t.base ≡ s.base
  pub width : t.width ≡ s.width
  pub height : t.height ≡ s.height
  pub pitch : t.pitch ≡ s.pitch
  pub outside : (a : ℕ) → Outside s a → t.pixels a ≡ s.pixels a

abbrev pub pixel : Display → ℕ → ℕ → ℕ
pixel s x y = s.pixels (address s.base s.pitch x y)

row_end : (x y w h p : ℕ) → x < w → y < h → 4 * w ≤ p → y * p + x * 4 < h * p
row_end x y w h p hx hy hw = grind arith

row_order : (x x' y y' p : ℕ) → 4 * x < p → y < y' → y * p + x * 4 < y' * p + x' * 4
row_order x x' y y' p hx hy = grind arith

same_place :
    (x y x' y' p : ℕ)
    → 4 * x < p
    → 4 * x' < p
    → y * p + x * 4 ≡ y' * p + x' * 4
    → (x ≡ x') × (y ≡ y')
same_place x y x' y' p hx hx' e = elim (dec_lt y y') [
  | yes lt ↦ absurd (omega (arith, row_order x x' y y' p hx lt))
  | no ge ↦ elim (dec_lt y' y) [
    | yes lt ↦ absurd (omega (arith, row_order x' x y' y p hx' lt))
    | no le ↦ let rows : y ≡ y' = omega arith in (omega (arith, ap (λ (t : ℕ). t * p) rows), rows)
  ]
]

module _ (s : Display) (frame : IsFrame s) where
  pub address_lem :
      (x y : ℕ)
      → x < s.width
      → y < s.height
      → (address s.base s.pitch x y ≡ s.base + (y * s.pitch + x * 4))
        × (address s.base s.pitch x y < s.base + s.height * s.pitch)
  unfolding address
  address_lem x y hx hy =
      let inside = row_end x y s.width s.height s.pitch hx hy frame.rows in
      (omega (arith, frame.small, frame.below), omega (arith, frame.small, frame.below))

  pub set_pixel-Drawn : (x y c : ℕ) → Drawn s (display_set_pixel x y c s)
  unfolding display_set_pixel
  set_pixel-Drawn x y c = record {
    base = ground arith;
    width = ground arith;
    height = ground arith;
    pitch = ground arith;
    outside = λ a out. ground (arith, address_lem x y);
  }

  -- A pixel on the screen gets the colour, and every other one keeps its own; a pixel off the
  -- screen changes none.
  pub pixel-set_pixel :
      (x y c x' y' : ℕ)
      → x' < s.width
      → y' < s.height
      → pixel (display_set_pixel x y c s) x' y' ≡ (if x == x' && y == y' then c else pixel s x' y')
  unfolding display_set_pixel
  pixel-set_pixel x y c x' y' hx hy = elim (Bool-cases (leb s.width x || leb s.height y)) [
    | inl off ↦ rw off (ground arith)
    | inr on ↦ rw on (apart (ground arith) (ground arith))
  ]
    where
      apart :
          x < s.width
          → y < s.height
          → (if address s.base s.pitch x y == address s.base s.pitch x' y'
              then c
              else pixel s x' y')
            ≡ (if x == x' && y == y' then c else pixel s x' y')
      apart hx0 hy0 = ground (
        arith,
        address_lem x y hx0 hy0,
        address_lem x' y' hx hy,
        same_place x y x' y' s.pitch (omega (arith, frame.rows)) (omega (arith, frame.rows)),
      )
