-- ===== src/Kernel/Drivers/Display/Screen.antt =====
-- Everything that the console draws stays inside of the framebuffer; and `display_clear` paints all
-- of it.
use aion_os.Prelude.{
  ℕ, zero, suc, ◌+◌, ◌*◌, ◌<◌, ◌≡◌, refl, ap, ap₂, ◌∙◌, Bool, true, false, ◌&&◌, inl, inr, arith,
  ltb, leb, ◌==◌, if◌then◌else◌,
}
use aion_os.Kernel.Drivers.Display.{
  Display, add32, background, display_set_pixel, clear_row, clear_rows, display_clear, display_init,
  glyph_bit, draw_row, draw_rows,
}
use aion_os.Kernel.Drivers.Display.Pixels.{
  IsFrame, Drawn, Outside, pixel, set_pixel-Drawn, pixel-set_pixel,
}

pub Drawn-refl : (s : Display) → Drawn s s
Drawn-refl s = record {
  base = refl;
  width = refl;
  height = refl;
  pitch = refl;
  outside = λ a out. refl;
}

pub Drawn-trans : {s t u : Display} → Drawn s t → Drawn t u → Drawn s u
Drawn-trans {s} {t} p q = record {
  base = q.base ∙ p.base;
  width = q.width ∙ p.width;
  height = q.height ∙ p.height;
  pitch = q.pitch ∙ p.pitch;
  outside = λ a out. q.outside a (out_after a out) ∙ p.outside a out;
}
  where
    size : t.height * t.pitch ≡ s.height * s.pitch
    size = ap₂ ◌*◌ p.height p.pitch

    out_after : (a : ℕ) → Outside s a → Outside t a
    out_after a (inl h) = inl (omega (arith, p.base))
    out_after a (inr h) = inr (omega (arith, p.base, size))

pub Drawn-IsFrame : {s t : Display} → Drawn s t → IsFrame s → IsFrame t
Drawn-IsFrame {s} {t} p f =
    let size : t.height * t.pitch ≡ s.height * s.pitch = ap₂ ◌*◌ p.height p.pitch in
    record {
      rows = omega (arith, p.width, p.pitch, f.rows);
      small = omega (arith, size, f.small);
      below = omega (arith, size, p.base, f.below);
    }

-- Doing one thing after another.
pub then-Drawn : {s t u : Display} → IsFrame s → Drawn s t → (IsFrame t → Drawn t u) → Drawn s u
then-Drawn frame p next = Drawn-trans p (next (Drawn-IsFrame p frame))

pub if-Drawn : {s t : Display} → Drawn s t → (b : Bool) → Drawn s (if b then t else s)
if-Drawn p true = p
if-Drawn {s} p false = Drawn-refl s

pub clear_row-Drawn : (n x y : ℕ) (s : Display) → IsFrame s → Drawn s (clear_row n x y s)
unfolding clear_row
clear_row-Drawn zero x y s frame = Drawn-refl s
clear_row-Drawn (suc n) x y s frame =
    then-Drawn frame (set_pixel-Drawn s frame x y background)
      (clear_row-Drawn n (x + 1) y (display_set_pixel x y background s))

pub clear_rows-Drawn : (n y : ℕ) (s : Display) → IsFrame s → Drawn s (clear_rows n y s)
unfolding clear_rows
clear_rows-Drawn zero y s frame = Drawn-refl s
clear_rows-Drawn (suc n) y s frame =
    then-Drawn frame (clear_row-Drawn s.width 0 y s frame)
      (clear_rows-Drawn n (y + 1) (clear_row s.width 0 y s))

pub draw_row-Drawn :
    (n col row idx x y color : ℕ) (s : Display)
    → IsFrame s
    → Drawn s (draw_row n col row idx x y color s)
unfolding draw_row
draw_row-Drawn zero col row idx x y color s frame = Drawn-refl s
draw_row-Drawn (suc n) col row idx x y color s frame =
    then-Drawn frame
      (if-Drawn (set_pixel-Drawn s frame (add32 x col) (add32 y row) color) (glyph_bit idx row col))
      (draw_row-Drawn n (col + 1) row idx x y color (
        if glyph_bit idx row col then display_set_pixel (add32 x col) (add32 y row) color s else s))

pub draw_rows-Drawn :
    (n row idx x y color : ℕ) (s : Display) → IsFrame s → Drawn s (draw_rows n row idx x y color s)
unfolding draw_rows
draw_rows-Drawn zero row idx x y color s frame = Drawn-refl s
draw_rows-Drawn (suc n) row idx x y color s frame =
    then-Drawn frame (draw_row-Drawn 8 0 row idx x y color s frame)
      (draw_rows-Drawn n (row + 1) idx x y color (draw_row 8 0 row idx x y color s))

module _ (x' y' : ℕ) where
  pixel-clear_row :
      (n x y : ℕ) (s : Display)
      → IsFrame s
      → x' < s.width
      → y' < s.height
      → pixel (clear_row n x y s) x' y'
        ≡ (if y == y' && (leb x x' && ltb x' (x + n)) then background else pixel s x' y')
  unfolding clear_row
  pixel-clear_row zero x y s frame hx hy = ground arith
  pixel-clear_row (suc n) x y s frame hx hy =
      let one = set_pixel-Drawn s frame x y background in
      pixel-clear_row n (x + 1) y (display_set_pixel x y background s) (Drawn-IsFrame one frame)
        (omega (arith, one.width)) (omega (arith, one.height))
      ∙ ap (λ p. if y == y' && (leb (x + 1) x' && ltb x' (x + 1 + n)) then background else p)
          (pixel-set_pixel s frame x y background x' y' hx hy)
      ∙ ground arith

  pixel-clear_rows :
      (n y : ℕ) (s : Display)
      → IsFrame s
      → x' < s.width
      → y' < s.height
      → pixel (clear_rows n y s) x' y'
        ≡ (if leb y y' && ltb y' (y + n) then background else pixel s x' y')
  unfolding clear_rows
  pixel-clear_rows zero y s frame hx hy = ground arith
  pixel-clear_rows (suc n) y s frame hx hy =
      let one = clear_row-Drawn s.width 0 y s frame in
      pixel-clear_rows n (y + 1) (clear_row s.width 0 y s) (Drawn-IsFrame one frame)
        (omega (arith, one.width)) (omega (arith, one.height))
      ∙ ap (λ p. if leb (y + 1) y' && ltb y' (y + 1 + n) then background else p)
          (pixel-clear_row s.width 0 y s frame hx hy)
      ∙ ground arith

-- After `display_init` every pixel of the screen has the background colour and the cursor stands at
-- (8, 8); no word outside of the framebuffer is written.
pub display_init-cleared :
    (fb w h pitch fmt : ℕ) (s : Display)
    → let s0 = record s { base = fb; width = w; height = h; pitch = pitch } in
      IsFrame s0
      → let t = display_init fb w h pitch fmt s in
        ((x y : ℕ) → x < w → y < h → pixel t x y ≡ background)
        × (t.cursor_x ≡ 8)
        × (t.cursor_y ≡ 8)
        × ((a : ℕ) → Outside s0 a → t.pixels a ≡ s.pixels a)
unfolding display_init display_clear
display_init-cleared fb w h pitch fmt s frame =
    let s0 : Display = record s { base = fb; width = w; height = h; pitch = pitch } in
    (
      λ x y hx hy. pixel-clear_rows x y h 0 s0 frame hx hy ∙ ground arith,
      refl,
      refl,
      (clear_rows-Drawn h 0 s0 frame).outside,
    )
