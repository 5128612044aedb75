-- ===== src/Kernel/Drivers/Display/Tests.antt =====
-- A screen of 64 by 48 pixels.
use aion_os.Prelude.{◌≡◌, refl, inl, arith}
use aion_os.Consciousness.Text.{codes}
use aion_os.Kernel.Drivers.Display.{
  Display, glyph_index, glyph_row, glyph_bit, draw_char, display_print_string,
}
use aion_os.Kernel.Drivers.Display.Pixels.{IsFrame, Drawn, pixel}
use aion_os.Kernel.Drivers.Display.Cursor.{HasCursor, display_print_string-HasCursor}
use aion_os.Kernel.Drivers.Display.Glyph.{pixel-draw_char}

abbrev screen : Display
screen = record {
  base = 0x8000_0000;
  width = 64;
  height = 48;
  pitch = 256;
  cursor_x = 8;
  cursor_y = 8;
  pixels = λ a. 0;
}

screen-IsFrame : IsFrame screen
screen-IsFrame = record { rows = omega arith; small = omega arith; below = omega arith }

screen-HasCursor : HasCursor screen
screen-HasCursor = record {
  wide = omega arith;
  high = omega arith;
  column = inl refl;
  line = inl refl;
}

-- The first row of the exclamation mark sets the columns 3 and 4.
pixel-draw_char_example : pixel (draw_char b'!' 8 8 0xff_ffff screen) 11 8 ≡ 0xff_ffff
unfolding glyph_index glyph_row glyph_bit
pixel-draw_char_example =
    pixel-draw_char b'!' 8 8 0xff_ffff 11 8 screen screen-IsFrame (omega arith) (omega arith)
      (omega arith) (omega arith)

display_print_string-HasCursor_example :
    let t = display_print_string (codes "hello") 0xff_ffff screen in Drawn screen t × HasCursor t
display_print_string-HasCursor_example =
    display_print_string-HasCursor (codes "hello") 0xff_ffff screen screen-IsFrame screen-HasCursor
