-- ===== src/Kernel/Drivers/Display.antt =====
-- The framebuffer console of kernel/drivers/display/display.c. The framebuffer is a function from
-- the address of a pixel, a `uint32_t`, to its colour.
pub mod Pixels
pub mod Screen
pub mod Cursor
pub mod Glyph
mod Tests
use aion_os.Prelude.{
  ℕ, zero, suc, ◌+◌, ◌-◌, ◌*◌, ◌/◌, ◌%◌, ◌^◌, Bool, true, false, ◌&&◌, ◌||◌, List, [], ◌∷◌, ◌++◌,
  ltb, leb, ◌==◌, if◌then◌else◌, get_or,
}
use aion_os.Prelude.Words.{add64}

-- `a + b` and `a * b` on `uint32_t`
abbrev pub add32 : ℕ → ℕ → ℕ
add32 a b = (a + b) % 2 ^ 32

abbrev pub mul32 : ℕ → ℕ → ℕ
mul32 a b = a * b % 2 ^ 32

-- The static variables, and the memory that holds the framebuffer.
pub record Display : Type 0 where
  pub base : ℕ
  pub width : ℕ
  pub height : ℕ
  pub pitch : ℕ
  pub cursor_x : ℕ
  pub cursor_y : ℕ
  pub pixels : ℕ → ℕ

-- `fb_base + y*fb_pitch + x*4`
pub address : ℕ → ℕ → ℕ → ℕ → ℕ
address base pitch x y = add64 (add64 base (mul32 y pitch)) (mul32 x 4)

pub display_set_pixel : ℕ → ℕ → ℕ → Display → Display
display_set_pixel x y color s =
    if leb s.width x || leb s.height y
    then s
    else record s { pixels = λ a. if address s.base s.pitch x y == a then color else s.pixels a }

abbrev pub background : ℕ
background = 0x0010_1010

-- The inner loop of `display_clear`, with the rounds left, from `x` on; and the outer one.
pub clear_row : ℕ → ℕ → ℕ → Display → Display
clear_row zero x y s = s
clear_row (suc n) x y s = clear_row n (x + 1) y (display_set_pixel x y background s)

pub clear_rows : ℕ → ℕ → Display → Display
clear_rows zero y s = s
clear_rows (suc n) y s = clear_rows n (y + 1) (clear_row s.width 0 y s)

pub display_clear : Display → Display
display_clear s = record (clear_rows s.height 0 s) { cursor_x = 8; cursor_y = 8 }

pub display_init : ℕ → ℕ → ℕ → ℕ → ℕ → Display → Display
display_init fb w h pitch fmt s =
    display_clear (record s { base = fb; width = w; height = h; pitch = pitch })

-- The rows of `font8x8` that have an initialiser; the others are 0 and are not read.
abbrev pub font : List (List ℕ)
font =
    (0 ∷ 0 ∷ 0 ∷ 0 ∷ 0 ∷ 0 ∷ 0 ∷ 0 ∷ [])
    ∷ (0x18 ∷ 0x3c ∷ 0x3c ∷ 0x18 ∷ 0x18 ∷ 0 ∷ 0x18 ∷ 0 ∷ [])
    ∷ (0x36 ∷ 0x36 ∷ 0 ∷ 0 ∷ 0 ∷ 0 ∷ 0 ∷ 0 ∷ [])
    ∷ (0x36 ∷ 0x36 ∷ 0x7f ∷ 0x36 ∷ 0x7f ∷ 0x36 ∷ 0x36 ∷ 0 ∷ [])
    ∷ []

-- The bytes from 128 on are negative as `char`, and the index is reset to 0 for them too.
pub glyph_index : ℕ → ℕ
glyph_index c = if leb 32 c && ltb c 128 then c - 32 else 0

pub glyph_row : ℕ → ℕ → ℕ
glyph_row idx row = if ltb idx 4 then get_or (get_or font idx []) row 0 else 0x3c

-- `bits & (0x80 >> col)`
pub glyph_bit : ℕ → ℕ → ℕ → Bool
glyph_bit idx row col = glyph_row idx row / 2 ^ (7 - col) % 2 == 1

-- The loops of `draw_char`, with the rounds left.
pub draw_row : ℕ → ℕ → ℕ → ℕ → ℕ → ℕ → ℕ → Display → Display
draw_row zero col row idx x y color s = s
draw_row (suc n) col row idx x y color s =
    draw_row n (col + 1) row idx x y color
      (if glyph_bit idx row col then display_set_pixel (add32 x col) (add32 y row) color s else s)

pub draw_rows : ℕ → ℕ → ℕ → ℕ → ℕ → ℕ → Display → Display
draw_rows zero row idx x y color s = s
draw_rows (suc n) row idx x y color s =
    draw_rows n (row + 1) idx x y color (draw_row 8 0 row idx x y color s)

pub draw_char : ℕ → ℕ → ℕ → ℕ → Display → Display
draw_char c x y color s = draw_rows 8 0 (glyph_index c) x y color s

-- `cursor_x=8; cursor_y+=12;`
pub new_line : Display → Display
new_line s = record s { cursor_x = 8; cursor_y = add32 s.cursor_y 12 }

-- `cursor_x+=9;` and the wrap at the right edge
pub advance : Display → Display
unfolding new_line
advance s =
    let x = add32 s.cursor_x 9 in
    if ltb s.width (add32 x 9) then new_line s else record s { cursor_x = x }

-- `if(cursor_y+12>fb_h) cursor_y=8;`
pub back_to_top : Display → Display
back_to_top s = if ltb s.height (add32 s.cursor_y 12) then record s { cursor_y = 8 } else s

-- The body of the loop of `display_print_string`.
pub print_char : ℕ → ℕ → Display → Display
unfolding advance back_to_top
print_char color c s =
    back_to_top
      (if c == b'\n' then new_line s else advance (draw_char c s.cursor_x s.cursor_y color s))

pub display_print_string : List ℕ → ℕ → Display → Display
display_print_string [] color s = s
display_print_string (c ∷ text) color s = display_print_string text color (print_char color c s)

-- The brackets of `display_print_boot_line`; `\n` is the byte 10.
abbrev pub open_bracket : List ℕ
open_bracket = 32 ∷ 32 ∷ b'[' ∷ []

abbrev pub close_bracket : List ℕ
close_bracket = b']' ∷ 32 ∷ []

pub display_print_boot_line : List ℕ → List ℕ → Display → Display
display_print_boot_line stage msg s = display_print_string (10 ∷ []) 0xff_ffff (
    display_print_string msg 0xff_ffff (
      display_print_string close_bracket 0xaaaa_aaaa
        (display_print_string stage 0x88_ccff (display_print_string open_bracket 0xaaaa_aaaa s))))

pub display_get_width : Display → ℕ
display_get_width s = s.width

pub display_get_height : Display → ℕ
display_get_height s = s.height
