-- ===== src/Vga/Screen.antt =====
-- kernel/vga.c: the console on the framebuffer.
use kronked_os.Prelude.{ℕ, zero, suc, ◌+◌, ◌*◌, ◌%◌, true, ◌==◌, leb, if◌then◌else◌}
use kronked_os.Prelude.Int.{pos}
use kronked_os.Prelude.Loops.{fill_row}
use kronked_os.Fb.{rgb, fb_draw_char, fb_fill_rect}
use kronked_os.Vga.{Grid, Vga, real_fb_cols, real_fb_rows, vga_entry, put_char, step_back, scroll}

unfoldable pub shown_char : ℕ → ℕ
shown_char cell = let ch = cell % 256 in if ch == 0 then 32 else ch

unfoldable pub real_render_char : ℕ → ℕ → Vga → Vga
unfolding shown_char
real_render_char row col v = record v {
  screen =
      fb_draw_char (pos (col * 8)) (pos (row * 16))
        (shown_char (v.real_screen_buf (row * real_fb_cols + col))) (rgb 220 220 220) (rgb 0 0 0)
        true v.screen;
}

unfoldable pub render_cols : ℕ → ℕ → ℕ → Vga → Vga
render_cols zero r c v = v
render_cols (suc n) r c v = render_cols n r (c + 1) (real_render_char r c v)

unfoldable pub render_rows : ℕ → ℕ → Vga → Vga
unfolding render_cols
render_rows zero r v = v
render_rows (suc n) r v = render_rows n (r + 1) (render_cols real_fb_cols r 0 v)

unfoldable pub real_render_all : Vga → Vga
unfolding render_rows
real_render_all v = render_rows real_fb_rows 0 (record v {
  screen =
      fb_fill_rect (pos 0) (pos 0) (pos (real_fb_cols * 8)) (pos (real_fb_rows * 16)) (rgb 0 0 0)
        v.screen;
})

-- Every cell of the buffer becomes a space, and the screen is drawn anew.
unfoldable pub real_screen_reset : Vga → Vga
real_screen_reset v = real_render_all (record v {
  real_screen_buf =
      fill_row (real_fb_rows * real_fb_cols) 0 (vga_entry 32 v.color) v.real_screen_buf;
  real_screen_initialized = true;
})

unfoldable pub real_screen_ensure_init : Vga → Vga
real_screen_ensure_init v = if v.real_screen_initialized then v else real_screen_reset v

unfoldable pub real_grid : Vga → Grid
real_grid v = record { cells = v.real_screen_buf; row = v.cursor_row; col = v.cursor_col }

unfoldable pub with_real_grid : Grid → Vga → Vga
with_real_grid g v = record v { real_screen_buf = g.cells; cursor_row = g.row; cursor_col = g.col }

-- The cell that the character has changed is drawn: the one behind the cursor's step back, or the
-- one in front of its step on.
unfoldable pub render_change : ℕ → Grid → Vga → Vga
render_change c old v =
    if c == 10
    then v
    else if c == 8
    then real_render_char (step_back real_fb_cols old).row (step_back real_fb_cols old).col v
    else real_render_char old.row old.col v

unfoldable pub scroll_real : Vga → Vga
scroll_real v =
    if leb real_fb_rows v.cursor_row
    then real_render_all (with_real_grid (scroll real_fb_cols real_fb_rows v.color (real_grid v)) v)
    else v

unfoldable pub putc_real : ℕ → Vga → Vga
unfolding render_change with_real_grid real_grid scroll_real
putc_real c v = scroll_real (
    render_change c (real_grid v)
      (with_real_grid (put_char real_fb_cols v.color c (real_grid v)) v))

-- Without the copy to the serial port.
unfoldable pub real_putc_framebuffer : ℕ → Vga → Vga
unfolding real_screen_ensure_init putc_real
real_putc_framebuffer c v = putc_real c (real_screen_ensure_init v)
