-- ===== src/Desktop/Draw.antt =====
-- kernel/desktop.c and kernel/cursor_bitmap.c: drawing the windows, the taskbar and the cursor.
use kronked_os.Prelude.{
  ℕ, zero, suc, ◌+◌, ◌*◌, ◌%◌, false, Option, none, some, List, [], ◌∷◌, ◌==◌, if◌then◌else◌,
}
use kronked_os.Prelude.Int.{ℤ, pos, ◌+ℤ◌, ◌-ℤ◌}
use kronked_os.Prelude.Text.{text}
use kronked_os.Fb.{
  Framebuffer, rgb, fb_get_width, fb_get_height, fb_put_pixel, fb_fill_rect, fb_draw_rect,
  fb_draw_hline, fb_draw_char, fb_draw_string,
}
use kronked_os.Machine.{Machine}
use kronked_os.Desktop.{
  Window, Desktop, Entries, titlebar_h, close_btn_size, taskbar_h, term_cols, term_rows, is_slot,
}

-- `char ch = cell & 0xFF; if (ch == 0) ch = ' ';`
unfoldable pub cell_char : ℕ → ℕ
cell_char cell = if cell % 256 == 0 then 32 else cell % 256

-- The cells of a row, from the column `col` on, and the rows from `row` on.
unfoldable pub draw_cells : ℕ → ℕ → ℕ → ℤ → ℤ → (ℕ → ℕ) → Framebuffer → Framebuffer
unfolding cell_char
draw_cells zero row col base_x base_y buf f = f
draw_cells (suc n) row col base_x base_y buf f = draw_cells n row (col + 1) base_x base_y buf (
    fb_draw_char (base_x +ℤ pos (col * 8)) (base_y +ℤ pos (row * 16))
      (cell_char (buf (row * term_cols + col))) (rgb 220 220 220) 0 false f)

unfoldable pub draw_lines : ℕ → ℕ → ℤ → ℤ → (ℕ → ℕ) → Framebuffer → Framebuffer
unfolding draw_cells
draw_lines zero row base_x base_y buf f = f
draw_lines (suc n) row base_x base_y buf f =
    draw_lines n (row + 1) base_x base_y buf (draw_cells term_cols row 0 base_x base_y buf f)

unfoldable pub draw_frame : Window → ℕ → Framebuffer → Framebuffer
draw_frame win title_color f = fb_draw_hline win.x (win.y +ℤ pos titlebar_h) win.w 0 (
    fb_draw_rect win.x win.y win.w win.h 0 (
      fb_draw_string (win.x +ℤ pos 8) (win.y +ℤ pos 4) win.title (rgb 255 255 255) 0 false (
        fb_fill_rect win.x win.y win.w (pos titlebar_h) title_color
          (fb_fill_rect win.x win.y win.w win.h (rgb 8 8 10) f))))

unfoldable pub draw_close_button : Window → Framebuffer → Framebuffer
draw_close_button win f =
    let cbx = win.x +ℤ win.w -ℤ pos close_btn_size -ℤ pos 4 in
    let cby = win.y +ℤ pos 4 in
    fb_draw_string (cbx +ℤ pos 4) (cby -ℤ pos 1) (text "x") (rgb 255 255 255) 0 false
      (fb_fill_rect cbx cby (pos close_btn_size) (pos close_btn_size) (rgb 180 50 50) f)

unfoldable pub draw_hosted : Window → Option ℕ → (ℕ → ℕ) → Framebuffer → Framebuffer
unfolding draw_lines
draw_hosted win none buf f = f
draw_hosted win (some id) buf f =
    draw_lines term_rows 0 (win.x +ℤ pos 8) (win.y +ℤ pos titlebar_h +ℤ pos 8) buf f

-- `buffer` gives the contents of a slot's buffer.
unfoldable pub draw_window : (ℕ → ℕ → ℕ) → ℕ → Desktop → Framebuffer → Framebuffer
unfolding draw_frame draw_close_button draw_hosted
draw_window buffer slot d f =
    let win = d.windows slot in
    let title_color = if is_slot d.focused_slot slot then rgb 60 90 160 else rgb 70 70 90 in
    draw_hosted win win.hosted_task (buffer win.buf_slot)
      (draw_close_button win (draw_frame win title_color f))

unfoldable pub draw_windows : (ℕ → ℕ → ℕ) → List ℕ → Desktop → Framebuffer → Framebuffer
unfolding draw_window
draw_windows buffer [] d f = f
draw_windows buffer (slot ∷ order) d f = draw_windows buffer order d (draw_window buffer slot d f)

-- 0 is transparent, 1 the white inside, 2 the black line around it.
abbrev pub cursor_bitmap : List (List ℕ)
cursor_bitmap =
    (2 ∷ 0 ∷ 0 ∷ 0 ∷ 0 ∷ 0 ∷ 0 ∷ 0 ∷ 0 ∷ 0 ∷ 0 ∷ 0 ∷ [])
    ∷ (2 ∷ 2 ∷ 0 ∷ 0 ∷ 0 ∷ 0 ∷ 0 ∷ 0 ∷ 0 ∷ 0 ∷ 0 ∷ 0 ∷ [])
    ∷ (2 ∷ 1 ∷ 2 ∷ 0 ∷ 0 ∷ 0 ∷ 0 ∷ 0 ∷ 0 ∷ 0 ∷ 0 ∷ 0 ∷ [])
    ∷ (2 ∷ 1 ∷ 1 ∷ 2 ∷ 0 ∷ 0 ∷ 0 ∷ 0 ∷ 0 ∷ 0 ∷ 0 ∷ 0 ∷ [])
    ∷ (2 ∷ 1 ∷ 1 ∷ 1 ∷ 2 ∷ 0 ∷ 0 ∷ 0 ∷ 0 ∷ 0 ∷ 0 ∷ 0 ∷ [])
    ∷ (2 ∷ 1 ∷ 1 ∷ 1 ∷ 1 ∷ 2 ∷ 0 ∷ 0 ∷ 0 ∷ 0 ∷ 0 ∷ 0 ∷ [])
    ∷ (2 ∷ 1 ∷ 1 ∷ 1 ∷ 1 ∷ 1 ∷ 2 ∷ 0 ∷ 0 ∷ 0 ∷ 0 ∷ 0 ∷ [])
    ∷ (2 ∷ 1 ∷ 1 ∷ 1 ∷ 1 ∷ 1 ∷ 1 ∷ 2 ∷ 0 ∷ 0 ∷ 0 ∷ 0 ∷ [])
    ∷ (2 ∷ 1 ∷ 1 ∷ 1 ∷ 1 ∷ 1 ∷ 1 ∷ 1 ∷ 2 ∷ 0 ∷ 0 ∷ 0 ∷ [])
    ∷ (2 ∷ 1 ∷ 1 ∷ 1 ∷ 1 ∷ 1 ∷ 1 ∷ 1 ∷ 1 ∷ 2 ∷ 0 ∷ 0 ∷ [])
    ∷ (2 ∷ 1 ∷ 1 ∷ 1 ∷ 1 ∷ 1 ∷ 1 ∷ 1 ∷ 1 ∷ 1 ∷ 2 ∷ 0 ∷ [])
    ∷ (2 ∷ 1 ∷ 1 ∷ 1 ∷ 1 ∷ 1 ∷ 2 ∷ 2 ∷ 2 ∷ 2 ∷ 2 ∷ 2 ∷ [])
    ∷ (2 ∷ 1 ∷ 1 ∷ 1 ∷ 2 ∷ 1 ∷ 2 ∷ 0 ∷ 0 ∷ 0 ∷ 0 ∷ 0 ∷ [])
    ∷ (2 ∷ 1 ∷ 1 ∷ 2 ∷ 2 ∷ 1 ∷ 1 ∷ 2 ∷ 0 ∷ 0 ∷ 0 ∷ 0 ∷ [])
    ∷ (2 ∷ 1 ∷ 2 ∷ 0 ∷ 0 ∷ 2 ∷ 1 ∷ 2 ∷ 0 ∷ 0 ∷ 0 ∷ 0 ∷ [])
    ∷ (2 ∷ 2 ∷ 0 ∷ 0 ∷ 0 ∷ 2 ∷ 1 ∷ 2 ∷ 0 ∷ 0 ∷ 0 ∷ 0 ∷ [])
    ∷ (2 ∷ 0 ∷ 0 ∷ 0 ∷ 0 ∷ 2 ∷ 1 ∷ 1 ∷ 2 ∷ 0 ∷ 0 ∷ 0 ∷ [])
    ∷ (0 ∷ 0 ∷ 0 ∷ 0 ∷ 0 ∷ 0 ∷ 2 ∷ 2 ∷ 2 ∷ 0 ∷ 0 ∷ 0 ∷ [])
    ∷ (0 ∷ 0 ∷ 0 ∷ 0 ∷ 0 ∷ 0 ∷ 2 ∷ 0 ∷ 0 ∷ 0 ∷ 0 ∷ 0 ∷ [])
    ∷ []

unfoldable pub cursor_pixel : ℕ → ℤ → ℤ → Framebuffer → Framebuffer
cursor_pixel v x y f =
    if v == 1
    then fb_put_pixel x y (rgb 255 255 255) f
    else if v == 2
    then fb_put_pixel x y (rgb 0 0 0) f
    else f

unfoldable pub cursor_line : List ℕ → ℤ → ℤ → Framebuffer → Framebuffer
unfolding cursor_pixel
cursor_line [] x y f = f
cursor_line (v ∷ row) x y f = cursor_line row (x +ℤ pos 1) y (cursor_pixel v x y f)

unfoldable pub cursor_rows : List (List ℕ) → ℤ → ℤ → Framebuffer → Framebuffer
unfolding cursor_line
cursor_rows [] x y f = f
cursor_rows (row ∷ rows) x y f = cursor_rows rows x (y +ℤ pos 1) (cursor_line row x y f)

unfoldable pub draw_cursor : ℤ → ℤ → Framebuffer → Framebuffer
unfolding cursor_rows
draw_cursor x y f = cursor_rows cursor_bitmap x y f

unfoldable pub draw_button : ℤ → ℤ → ℤ → ℕ → ℤ → List ℕ → Framebuffer → Framebuffer
draw_button x by w color inset label f =
    fb_draw_string (x +ℤ inset) (by +ℤ pos 6) label (rgb 255 255 255) 0 false
      (fb_fill_rect x by w (pos 28) color f)

unfoldable pub draw_taskbar : ℤ → ℤ → Framebuffer → Framebuffer
unfolding draw_button
draw_taskbar screen_w screen_h f =
    let y = screen_h -ℤ pos taskbar_h in
    let by = y +ℤ pos 6 in
    fb_draw_string (screen_w -ℤ pos 340) (y +ℤ pos 13)
      (text "Click a window to focus it for typing") (rgb 190 190 210) 0 false
      (draw_button (pos 288) by (pos 96) (rgb 140 60 60) (pos 22) (text "Quit") (
        draw_button (pos 150) by (pos 128) (rgb 60 90 140) (pos 16) (text "+ Editor") (
          draw_button (pos 12) by (pos 128) (rgb 60 110 60) (pos 10) (text "+ Terminal") (
            fb_draw_hline (pos 0) y screen_w (rgb 0 0 0)
              (fb_fill_rect (pos 0) y screen_w (pos taskbar_h) (rgb 35 35 55) f)))))

unfoldable pub draw_all : (ℕ → ℕ → ℕ) → ℤ → ℤ → Desktop → Framebuffer → Framebuffer
unfolding draw_windows draw_taskbar draw_cursor
draw_all buffer mx my d f =
    let w = pos (fb_get_width f) in
    let h = pos (fb_get_height f) in
    draw_cursor mx my (
      draw_taskbar w h
        (draw_windows buffer d.window_order d (fb_fill_rect (pos 0) (pos 0) w h (rgb 25 25 55) f)))

unfoldable pub redraw : Entries → Desktop × Machine → Machine
unfolding draw_all
redraw o (d, m) =
    let drawn =
      draw_all (λ slot. m.vga.buffers (o.term_buffers slot)) m.mouse.mouse_x m.mouse.mouse_y d
        m.vga.screen in
    record m { vga = record (m.vga) { screen = drawn } }
