-- ===== src/Fb.antt =====
-- kernel/fb.c: drawing on the linear framebuffer. Coordinates are `int`s, whose sums wrap as two's
-- complement; the index of a pixel of the screen is below 2^32.
pub mod Font
pub mod Fill
mod Tests
use Prim.Native.Nat.{bit_and}
use kronked_os.Prelude.{
  ℕ, zero, suc, ◌+◌, ◌-◌, ◌*◌, ◌/◌, ◌^◌, Bool, true, false, ◌||◌, List, [], ◌∷◌, ◌==◌, ltb, leb,
  if◌then◌else◌, update, get_or,
}
use kronked_os.Prelude.Int.{ℤ, pos, pos_part, ltb_ℤ, int_of, ◌+ℤ◌, ◌-ℤ◌}
use kronked_os.Prelude.Loops.{fill_rows}
use kronked_os.Fb.Font.{font8x16_data}

-- The static variables of fb.c; `fb` is the memory that the pointer points to, by pixel.
pub record Framebuffer : Type 0 where
  pub fb : ℕ → ℕ
  pub fb_width : ℕ
  pub fb_height : ℕ
  pub fb_pitch_px : ℕ

unfoldable pub fb_init : (ℕ → ℕ) → ℕ → ℕ → ℕ → Framebuffer
fb_init framebuffer width height pitch_bytes = record {
  fb = framebuffer;
  fb_width = width;
  fb_height = height;
  fb_pitch_px = pitch_bytes / 4;
}

unfoldable pub fb_get_width : Framebuffer → ℕ
fb_get_width f = f.fb_width

unfoldable pub fb_get_height : Framebuffer → ℕ
fb_get_height f = f.fb_height

-- `RGB`
abbrev pub rgb : ℕ → ℕ → ℕ → ℕ
rgb r g b = r * 65536 + g * 256 + b

unfoldable pub off_screen : ℤ → ℤ → Framebuffer → Bool
off_screen x y f =
    ltb_ℤ x (pos 0)
    || ltb_ℤ y (pos 0)
    || leb f.fb_width (pos_part x)
    || leb f.fb_height (pos_part y)

unfoldable pub fb_put_pixel : ℤ → ℤ → ℕ → Framebuffer → Framebuffer
unfolding off_screen
fb_put_pixel x y color f =
    if off_screen x y f
    then f
    else record f { fb = update f.fb (pos_part y * f.fb_pitch_px + pos_part x) color }

-- `x < 0 ? 0 : x`, and the end of a side, cut at the edge of the screen.
unfoldable pub low_edge : ℤ → ℤ
low_edge x = if ltb_ℤ x (pos 0) then pos 0 else x

unfoldable pub cut : ℤ → ℕ → ℤ
cut x1 size = if ltb_ℤ (int_of (pos size)) x1 then int_of (pos size) else x1

unfoldable pub high_edge : ℤ → ℤ → ℕ → ℤ
unfolding cut
high_edge x w size = cut (int_of (x +ℤ w)) size

-- The rounds of a loop from `a` to below `b`.
unfoldable pub rounds : ℤ → ℤ → ℕ
rounds a b = pos_part (b -ℤ a)

unfoldable pub fb_fill_rect : ℤ → ℤ → ℤ → ℤ → ℕ → Framebuffer → Framebuffer
unfolding low_edge high_edge rounds
fb_fill_rect x y w h color f =
    let x0 = low_edge x in
    let y0 = low_edge y in
    let x1 = high_edge x w f.fb_width in
    let y1 = high_edge y h f.fb_height in
    record f {
      fb =
          fill_rows (rounds y0 y1) (pos_part y0) (pos_part x0) (rounds x0 x1) f.fb_pitch_px color
            f.fb;
    }

unfoldable pub fb_draw_rect : ℤ → ℤ → ℤ → ℤ → ℕ → Framebuffer → Framebuffer
fb_draw_rect x y w h color f =
    let top = fb_fill_rect x y w (pos 1) color f in
    let bottom = fb_fill_rect x (int_of (int_of (y +ℤ h) -ℤ pos 1)) w (pos 1) color top in
    let left = fb_fill_rect x y (pos 1) h color bottom in
    fb_fill_rect (int_of (int_of (x +ℤ w) -ℤ pos 1)) y (pos 1) h color left

unfoldable pub fb_draw_hline : ℤ → ℤ → ℤ → ℕ → Framebuffer → Framebuffer
fb_draw_hline x y w color f = fb_fill_rect x y w (pos 1) color f

unfoldable pub fb_draw_vline : ℤ → ℤ → ℤ → ℕ → Framebuffer → Framebuffer
fb_draw_vline x y h color f = fb_fill_rect x y (pos 1) h color f

-- A `char` above 127 is negative.
unfoldable pub glyph_of : ℕ → List ℕ
glyph_of c = let c' = if ltb c 32 || ltb 126 c then 63 else c in get_or font8x16_data (c' - 32) []

unfoldable pub glyph_pixel : Bool → Bool → ℤ → ℤ → ℕ → ℕ → Framebuffer → Framebuffer
glyph_pixel on opaque x y fg bg f =
    if on then fb_put_pixel x y fg f else if opaque then fb_put_pixel x y bg f else f

-- `bits & (0x80 >> col)`
unfoldable pub is_on : ℕ → ℕ → Bool
is_on bits col = if bit_and bits (128 / 2 ^ col) == 0 then false else true

unfoldable pub draw_cols : ℕ → ℕ → ℕ → ℤ → ℤ → ℕ → ℕ → Bool → Framebuffer → Framebuffer
unfolding glyph_pixel is_on
draw_cols zero col bits x y fg bg opaque f = f
draw_cols (suc n) col bits x y fg bg opaque f =
    draw_cols n (col + 1) bits x y fg bg opaque
      (glyph_pixel (is_on bits col) opaque (int_of (x +ℤ pos col)) y fg bg f)

unfoldable pub draw_rows : ℕ → ℕ → List ℕ → ℤ → ℤ → ℕ → ℕ → Bool → Framebuffer → Framebuffer
unfolding draw_cols
draw_rows zero row glyph x y fg bg opaque f = f
draw_rows (suc n) row glyph x y fg bg opaque f =
    draw_rows n (row + 1) glyph x y fg bg opaque
      (draw_cols 8 0 (get_or glyph row 0) x (int_of (y +ℤ pos row)) fg bg opaque f)

unfoldable pub fb_draw_char : ℤ → ℤ → ℕ → ℕ → ℕ → Bool → Framebuffer → Framebuffer
unfolding glyph_of draw_rows
fb_draw_char x y c fg bg opaque f = draw_rows 16 0 (glyph_of c) x y fg bg opaque f

-- The loop of `fb_draw_string`, at the column `cx`.
unfoldable pub draw_string : ℤ → ℤ → ℤ → List ℕ → ℕ → ℕ → Bool → Framebuffer → Framebuffer
draw_string x cx y [] fg bg opaque f = f
draw_string x cx y (c ∷ s) fg bg opaque f =
    let next_line = draw_string x x (int_of (y +ℤ pos 16)) s fg bg opaque f in
    let next_char =
      draw_string x (int_of (cx +ℤ pos 8)) y s fg bg opaque (fb_draw_char cx y c fg bg opaque f) in
    if c == 10 then next_line else next_char

unfoldable pub fb_draw_string : ℤ → ℤ → List ℕ → ℕ → ℕ → Bool → Framebuffer → Framebuffer
unfolding draw_string
fb_draw_string x y s fg bg opaque f = draw_string x x y s fg bg opaque f
