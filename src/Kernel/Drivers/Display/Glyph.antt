-- ===== src/Kernel/Drivers/Display/Glyph.antt =====
-- `draw_char`: the cell of eight by eight pixels shows the glyph, and every other pixel stays.
use aion_os.Prelude.{
  ℕ, zero, suc, ◌+◌, ◌-◌, ◌^◌, ◌≤◌, ◌<◌, ◌≡◌, ap, ◌∙◌, Bool, ◌&&◌, inl, inr, arith, ltb, leb, ◌==◌,
  if◌then◌else◌, Bool-cases,
}
use aion_os.Kernel.Drivers.Display.{
  Display, add32, display_set_pixel, glyph_index, glyph_bit, draw_row, draw_rows, draw_char,
}
use aion_os.Kernel.Drivers.Display.Pixels.{IsFrame, pixel, set_pixel-Drawn, pixel-set_pixel}
use aion_os.Kernel.Drivers.Display.Screen.{Drawn-IsFrame, draw_row-Drawn, if-Drawn}

module _ (x' y' x y idx color : ℕ) (narrow : x + 8 < 2 ^ 32) (flat : y + 8 < 2 ^ 32) where
  -- The pixel is one of the columns from `col` to `col + n` of the row, and set there.
  abbrev in_row : ℕ → ℕ → ℕ → Bool
  in_row n col row =
      y + row == y' && (leb (x + col) x' && ltb x' (x + col + n)) && glyph_bit idx row (x' - x)

  one_pixel :
      (col row : ℕ) (s : Display)
      → IsFrame s
      → x' < s.width
      → y' < s.height
      → col < 8
      → row < 8
      → pixel
          (if glyph_bit idx row col
            then display_set_pixel (add32 x col) (add32 y row) color s
            else s)
          x'
          y'
        ≡ (if in_row 1 col row then color else pixel s x' y')
  one_pixel col row s frame hx hy hc hr = elim (Bool-cases (x + col == x')) [
    | inl here ↦
        let index : x' - x ≡ col = ground arith in
        elim (Bool-cases (glyph_bit idx row col)) [
          | inl set ↦ rw set (
              pixel-set_pixel s frame (add32 x col) (add32 y row) color x' y' hx hy
              ∙ ground (arith, ap (glyph_bit idx row) index ∙ set))
          | inr unset ↦ rw unset (ground (arith, ap (glyph_bit idx row) index ∙ unset))
        ]
    | inr other ↦ elim (Bool-cases (glyph_bit idx row col)) [
      | inl set ↦
          rw set
            (pixel-set_pixel s frame (add32 x col) (add32 y row) color x' y' hx hy ∙ ground arith)
      | inr unset ↦ rw unset (ground arith)
    ]
  ]

  pixel-draw_row :
      (n col row : ℕ) (s : Display)
      → IsFrame s
      → x' < s.width
      → y' < s.height
      → col + n ≤ 8
      → row < 8
      → pixel (draw_row n col row idx x y color s) x' y'
        ≡ (if in_row n col row then color else pixel s x' y')
  unfolding draw_row
  pixel-draw_row zero col row s frame hx hy hc hr = ground arith
  pixel-draw_row (suc n) col row s frame hx hy hc hr =
      let t : Display =
        (if glyph_bit idx row col
          then display_set_pixel (add32 x col) (add32 y row) color s
          else s) in
      let drawn =
        if-Drawn (set_pixel-Drawn s frame (add32 x col) (add32 y row) color)
          (glyph_bit idx row col) in
      pixel-draw_row n (col + 1) row t (Drawn-IsFrame drawn frame) (omega (arith, drawn.width))
        (omega (arith, drawn.height)) (omega arith) hr
      ∙ ap (λ p. if in_row n (col + 1) row then color else p)
          (one_pixel col row s frame hx hy (omega arith) hr)
      ∙ ground arith

  -- The pixel is in one of the rows from `row` to `row + n` of the cell, and set there.
  abbrev in_rows : ℕ → ℕ → Bool
  in_rows n row =
      leb (y + row) y'
      && ltb y' (y + row + n)
      && (leb x x' && ltb x' (x + 8))
      && glyph_bit idx (y' - y) (x' - x)

  pixel-draw_rows :
      (n row : ℕ) (s : Display)
      → IsFrame s
      → x' < s.width
      → y' < s.height
      → row + n ≤ 8
      → pixel (draw_rows n row idx x y color s) x' y'
        ≡ (if in_rows n row then color else pixel s x' y')
  unfolding draw_rows
  pixel-draw_rows zero row s frame hx hy hr = ground arith
  pixel-draw_rows (suc n) row s frame hx hy hr =
      let one = draw_row-Drawn 8 0 row idx x y color s frame in
      pixel-draw_rows n (row + 1) (draw_row 8 0 row idx x y color s) (Drawn-IsFrame one frame)
        (omega (arith, one.width)) (omega (arith, one.height)) (omega arith)
      ∙ ap (λ p. if in_rows n (row + 1) then color else p)
          (pixel-draw_row 8 0 row s frame hx hy (omega arith) (omega arith))
      ∙ elim (Bool-cases (y + row == y')) [
        | inl here ↦
            let index : y' - y ≡ row = ground arith in
            ground (arith, ap (λ r. glyph_bit idx r (x' - x)) index)
        | inr other ↦ ground arith
      ]

-- In a framebuffer that fits into the address space, and for a cell whose coordinates do not wrap:
-- the pixels of the cell at (x, y) that the glyph of `c` sets get the colour. Every other pixel of
-- the screen, inside and outside of the cell, keeps its own.
pub pixel-draw_char :
    (c x y color x' y' : ℕ) (s : Display)
    → IsFrame s
    → x + 8 < 2 ^ 32
    → y + 8 < 2 ^ 32
    → x' < s.width
    → y' < s.height
    → pixel (draw_char c x y color s) x' y' ≡ (
        if leb y y'
          && ltb y' (y + 8)
          && (leb x x' && ltb x' (x + 8))
          && glyph_bit (glyph_index c) (y' - y) (x' - x)
        then color
        else pixel s x' y')
unfolding draw_char
pixel-draw_char c x y color x' y' s frame narrow flat hx hy =
    pixel-draw_rows x' y' x y (glyph_index c) color narrow flat 8 0 s frame hx hy (omega arith)
    ∙ ground arith
