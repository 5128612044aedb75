-- ===== src/Kernel/Drivers/Display/Cursor.antt =====
-- `display_print_string`: the cursor stays on the screen and nothing outside of it is written.
use aion_os.Prelude.{
  ℕ, zero, suc, ◌+◌, ◌^◌, ◌≤◌, ◌<◌, ◌≡◌, refl, ◌∙◌, ◌⊎◌, inl, inr, arith, ltb, ◌==◌, if◌then◌else◌,
  Bool-cases, List, [], ◌∷◌,
}
use aion_os.Kernel.Drivers.Display.{
  Display, add32, display_set_pixel, glyph_index, glyph_bit, draw_row, draw_rows, draw_char,
  new_line, advance, back_to_top, print_char, display_print_string, display_clear, display_init,
  clear_rows, open_bracket, close_bracket, display_print_boot_line,
}
use aion_os.Kernel.Drivers.Display.Pixels.{IsFrame, Drawn}
use aion_os.Kernel.Drivers.Display.Screen.{
  clear_rows-Drawn, Drawn-refl, Drawn-trans, Drawn-IsFrame, draw_rows-Drawn,
}

-- A character cell at the cursor ends on the screen, but for the first of a row or of the screen.
pub record HasCursor (s : Display) : Type 0 where
  pub wide : s.width + 32 < 2 ^ 32
  pub high : s.height + 32 < 2 ^ 32
  pub column : (s.cursor_x ≡ 8) ⊎ (s.cursor_x + 9 ≤ s.width)
  pub line : (s.cursor_y ≡ 8) ⊎ (s.cursor_y + 12 ≤ s.height)

-- Drawing moves no cursor.
draw_row-cursor :
    (n col row idx x y color : ℕ) (s : Display)
    → ((draw_row n col row idx x y color s).cursor_x ≡ s.cursor_x)
      × ((draw_row n col row idx x y color s).cursor_y ≡ s.cursor_y)
unfolding draw_row display_set_pixel
draw_row-cursor zero col row idx x y color s = (refl, refl)
draw_row-cursor (suc n) col row idx x y color s =
    let t =
      (if glyph_bit idx row col
        then display_set_pixel (add32 x col) (add32 y row) color s
        else s) in
    let rest = draw_row-cursor n (col + 1) row idx x y color t in
    (rest.0 ∙ ground arith, rest.1 ∙ ground arith)

draw_rows-cursor :
    (n row idx x y color : ℕ) (s : Display)
    → ((draw_rows n row idx x y color s).cursor_x ≡ s.cursor_x)
      × ((draw_rows n row idx x y color s).cursor_y ≡ s.cursor_y)
unfolding draw_rows
draw_rows-cursor zero row idx x y color s = (refl, refl)
draw_rows-cursor (suc n) row idx x y color s =
    let one = draw_row-cursor 8 0 row idx x y color s in
    let rest = draw_rows-cursor n (row + 1) idx x y color (draw_row 8 0 row idx x y color s) in
    (rest.0 ∙ one.0, rest.1 ∙ one.1)

module _ (s : Display) where
  -- What moves the cursor only.
  moved : (x y : ℕ) → Drawn s (record s { cursor_x = x; cursor_y = y })
  moved x y = record {
    base = refl;
    width = refl;
    height = refl;
    pitch = refl;
    outside = λ a out. refl;
  }

  new_line-HasCursor : HasCursor s → HasCursor (back_to_top (new_line s))
  unfolding back_to_top new_line
  new_line-HasCursor c = ground arith

  advance-HasCursor : HasCursor s → HasCursor (back_to_top (advance s))
  unfolding back_to_top advance new_line
  advance-HasCursor c = ground arith

  back_to_top-Drawn : Drawn s (back_to_top s)
  unfolding back_to_top
  back_to_top-Drawn = elim (Bool-cases (ltb s.height (add32 s.cursor_y 12))) [
    | inl over ↦ rw over (moved s.cursor_x 8)
    | inr on ↦ rw on (Drawn-refl s)
  ]

  advance-Drawn : Drawn s (advance s)
  unfolding advance new_line
  advance-Drawn = elim (Bool-cases (ltb s.width (add32 (add32 s.cursor_x 9) 9))) [
    | inl over ↦ rw over (moved 8 (add32 s.cursor_y 12))
    | inr on ↦ rw on (moved (add32 s.cursor_x 9) s.cursor_y)
  ]

Kept : Display → Display → Type 0
Kept s t = Drawn s t × HasCursor t

new_line-Kept : (s : Display) → HasCursor s → Kept s (back_to_top (new_line s))
unfolding Kept new_line
new_line-Kept s cursor = (
  Drawn-trans (moved s 8 (add32 s.cursor_y 12))
      (back_to_top-Drawn (record s { cursor_x = 8; cursor_y = add32 s.cursor_y 12 })),
  new_line-HasCursor s cursor,
)

advance-Kept : (s : Display) → HasCursor s → Kept s (back_to_top (advance s))
unfolding Kept
advance-Kept s cursor =
    (Drawn-trans (advance-Drawn s) (back_to_top-Drawn (advance s)), advance-HasCursor s cursor)

-- A glyph is drawn before the cursor moves on.
glyph-Kept :
    (idx color : ℕ) (s : Display)
    → IsFrame s
    → HasCursor s
    → Kept s (draw_rows 8 0 idx s.cursor_x s.cursor_y color s)
unfolding Kept
glyph-Kept idx color s frame cursor =
    let drawn = draw_rows-Drawn 8 0 idx s.cursor_x s.cursor_y color s frame in
    let still = draw_rows-cursor 8 0 idx s.cursor_x s.cursor_y color s in
    (
      drawn,
      record {
        wide = omega (arith, drawn.width, cursor.wide);
        high = omega (arith, drawn.height, cursor.high);
        column = ground (arith, drawn.width, still, cursor.column);
        line = ground (arith, drawn.height, still, cursor.line);
      },
    )

and_then : (s t u : Display) → Kept s t → (HasCursor t → Kept t u) → Kept s u
unfolding Kept
and_then s t u (drawn, cursor) next =
    let (drawn', cursor') = next cursor in (Drawn-trans drawn drawn', cursor')

print_char-Kept :
    (color c : ℕ) (s : Display) → IsFrame s → HasCursor s → Kept s (print_char color c s)
unfolding print_char draw_char
print_char-Kept color c s frame cursor = elim (Bool-cases (c == b'\n')) [
  | inl line ↦ rw line (new_line-Kept s cursor)
  | inr letter ↦ rw letter (
      and_then s (draw_rows 8 0 (glyph_index c) s.cursor_x s.cursor_y color s)
        (back_to_top (advance (draw_rows 8 0 (glyph_index c) s.cursor_x s.cursor_y color s)))
        (glyph-Kept (glyph_index c) color s frame cursor)
        (advance-Kept (draw_rows 8 0 (glyph_index c) s.cursor_x s.cursor_y color s)))
]

-- With a framebuffer that fits into the address space and a cursor on the screen, printing leaves
-- memory outside of the framebuffer alone, and the cursor stays on the screen.
pub display_print_string-HasCursor :
    (text : List ℕ) (color : ℕ) (s : Display)
    → IsFrame s
    → HasCursor s
    → Drawn s (display_print_string text color s) × HasCursor (display_print_string text color s)
unfolding display_print_string Kept
display_print_string-HasCursor [] color s frame cursor = (Drawn-refl s, cursor)
display_print_string-HasCursor (c ∷ text) color s frame cursor =
    let (drawn, next) = print_char-Kept color c s frame cursor in
    let (drawn', after) =
      display_print_string-HasCursor text color (print_char color c s) (Drawn-IsFrame drawn frame)
        next in
    (Drawn-trans drawn drawn', after)

-- After `display_init` the cursor is on the screen, whatever the display was before.
pub display_init-HasCursor :
    (fb w h pitch fmt : ℕ) (s : Display)
    → let s0 = record s { base = fb; width = w; height = h; pitch = pitch } in
      IsFrame s0
      → w + 32 < 2 ^ 32
      → h + 32 < 2 ^ 32
      → Drawn s0 (display_init fb w h pitch fmt s) × HasCursor (display_init fb w h pitch fmt s)
unfolding display_init display_clear
display_init-HasCursor fb w h pitch fmt s frame wide high =
    let s0 : Display = record s { base = fb; width = w; height = h; pitch = pitch } in
    let cleared = clear_rows-Drawn h 0 s0 frame in
    (
      Drawn-trans cleared (moved (clear_rows h 0 s0) 8 8),
      record {
        wide = omega (arith, cleared.width);
        high = omega (arith, cleared.height);
        column = inl refl;
        line = inl refl;
      },
    )

-- A line of the boot log.
pub display_print_boot_line-HasCursor :
    (stage msg : List ℕ) (s : Display)
    → IsFrame s
    → HasCursor s
    → Drawn s (display_print_boot_line stage msg s)
      × HasCursor (display_print_boot_line stage msg s)
unfolding display_print_boot_line
display_print_boot_line-HasCursor stage msg s frame cursor =
    let s1 : Display = display_print_string open_bracket 0xaaaa_aaaa s in
    let (d1, c1) = display_print_string-HasCursor open_bracket 0xaaaa_aaaa s frame cursor in
    let f1 = Drawn-IsFrame d1 frame in
    let s2 : Display = display_print_string stage 0x88_ccff s1 in
    let (d2, c2) = display_print_string-HasCursor stage 0x88_ccff s1 f1 c1 in
    let f2 = Drawn-IsFrame d2 f1 in
    let s3 : Display = display_print_string close_bracket 0xaaaa_aaaa s2 in
    let (d3, c3) = display_print_string-HasCursor close_bracket 0xaaaa_aaaa s2 f2 c2 in
    let f3 = Drawn-IsFrame d3 f2 in
    let s4 : Display = display_print_string msg 0xff_ffff s3 in
    let (d4, c4) = display_print_string-HasCursor msg 0xff_ffff s3 f3 c3 in
    let (d5, c5) = display_print_string-HasCursor (10 ∷ []) 0xff_ffff s4 (Drawn-IsFrame d4 f3) c4 in
    (Drawn-trans d1 (Drawn-trans d2 (Drawn-trans d3 (Drawn-trans d4 d5))), c5)
