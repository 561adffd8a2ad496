-- ===== src/Vga/Put.antt =====
-- kernel/vga.c: the operations of the console, each on the output that is the current one.
use kronked_os.Prelude.{
  ℕ, ◌+◌, ◌*◌, ◌/◌, ◌%◌, Bool, true, ◌||◌, List, [], ◌∷◌, ◌==◌, leb, if◌then◌else◌, update, get_or,
}
use kronked_os.Prelude.Int.{ℤ, pos, pos_part, ltb_ℤ}
use kronked_os.Prelude.Loops.{fill_rows}
use kronked_os.Serial.{serial_putc}
use kronked_os.Task.{Task, Tasks, at_current}
use kronked_os.Task.Redirect.{
  task_set_vga_redirect, task_consume_vga_dirty, task_current_vga_buf, task_current_vga_cols,
  task_current_vga_rows, task_current_vga_mark_dirty, current_field,
}
use kronked_os.Fb.{fb_draw_char}
use kronked_os.Vga.{Grid, Vga, vga_width, vga_height, vga_entry, grid_putc}
use kronked_os.Vga.Screen.{real_screen_reset, real_putc_framebuffer}

-- `vga_color_to_rgb`
unfoldable pub vga_color_to_rgb : ℕ → ℕ
vga_color_to_rgb idx =
    get_or
      (0x000000 ∷ 0x0000aa ∷ 0x00aa00 ∷ 0x00aaaa ∷ 0xaa0000 ∷ 0xaa00aa ∷ 0xaa5500 ∷ 0xaaaaaa
        ∷ 0x555555 ∷ 0x5555ff ∷ 0x55ff55 ∷ 0x55ffff ∷ 0xff5555 ∷ 0xff55ff ∷ 0xffff55 ∷ 0xffffff
        ∷ [])
      (idx % 16) 0

-- The pointer that `task_get_current` returns.
unfoldable pub current_id : Tasks → ℕ
current_id s = current_field (λ t. t.id) s.ring

unfoldable pub vga_set_redirect : ℕ → ℕ → ℕ → Tasks → Tasks
vga_set_redirect buffer cols rows s = task_set_vga_redirect (current_id s) buffer cols rows s

unfoldable pub vga_redirect_consume_dirty : Tasks → Bool × Tasks
vga_redirect_consume_dirty s = task_consume_vga_dirty (current_id s) s

-- The running task's buffer and its cursor, where `*task_current_vga_row_ptr()` points to.
unfoldable pub redirect_grid : Tasks → Vga → Grid
redirect_grid s v = record {
  cells = v.buffers (task_current_vga_buf s);
  row = current_field (λ t. t.vga_cursor_row) s.ring;
  col = current_field (λ t. t.vga_cursor_col) s.ring;
}

unfoldable pub set_cursor : ℕ → ℕ → Task → Task
set_cursor row col t = record t { vga_cursor_row = row; vga_cursor_col = col }

unfoldable pub move_redirect : ℕ → ℕ → Tasks → Tasks
unfolding set_cursor
move_redirect row col s = record s { ring = at_current (set_cursor row col) s.ring }

unfoldable pub with_redirect_grid : Grid → Tasks × Vga → Tasks × Vga
unfolding move_redirect
with_redirect_grid g (s, v) = (
  task_current_vga_mark_dirty (move_redirect g.row g.col s),
  record v { buffers = update v.buffers (task_current_vga_buf s) g.cells },
)

unfoldable pub redirect_putc : ℕ → Tasks × Vga → Tasks × Vga
unfolding redirect_grid with_redirect_grid
redirect_putc c (s, v) =
    with_redirect_grid
      (grid_putc (task_current_vga_cols s) (task_current_vga_rows s) v.color c (redirect_grid s v))
      (s, v)

unfoldable pub text_grid : Vga → Grid
text_grid v = record { cells = v.vga_memory; row = v.cursor_row; col = v.cursor_col }

unfoldable pub with_text_grid : Grid → Vga → Vga
with_text_grid g v = record v { vga_memory = g.cells; cursor_row = g.row; cursor_col = g.col }

unfoldable pub text_putc : ℕ → Vga → Vga
unfolding text_grid with_text_grid
text_putc c v = with_text_grid (grid_putc vga_width vga_height v.color c (text_grid v)) v

-- The copy to the serial port.
unfoldable pub mirror : ℕ → Vga → Vga
mirror c v = record v {
  serial =
      if c == 10
      then serial_putc c (serial_putc 13 v.serial)
      else if c == 8
      then v.serial
      else serial_putc c v.serial;
}

unfoldable pub screen_putc : ℕ → Vga → Vga
unfolding text_putc
screen_putc c v = if v.gui_active then real_putc_framebuffer c v else text_putc c v

unfoldable pub vga_putc : ℕ → Tasks × Vga → Tasks × Vga
unfolding mirror redirect_putc screen_putc
vga_putc c (s, v) =
    let (s', v') =
      if task_current_vga_buf s == 0 then (s, screen_putc c v) else redirect_putc c (s, v) in
    (s', mirror c v')

unfoldable pub vga_write : List ℕ → Tasks × Vga → Tasks × Vga
vga_write [] con = con
vga_write (c ∷ s) con = vga_write s (vga_putc c con)

-- A screen of spaces with its cursor in the first cell.
unfoldable pub blank : ℕ → ℕ → ℕ → Grid → Grid
blank cols rows color g = record {
  cells = fill_rows rows 0 0 cols cols (vga_entry 32 color) g.cells;
  row = 0;
  col = 0;
}

unfoldable pub screen_clear : Vga → Vga
unfolding blank
screen_clear v =
    if v.gui_active
    then record (real_screen_reset v) { cursor_row = 0; cursor_col = 0 }
    else with_text_grid (blank vga_width vga_height v.color (text_grid v)) v

unfoldable pub vga_clear : Tasks × Vga → Tasks × Vga
unfolding screen_clear
vga_clear (s, v) =
    if task_current_vga_buf s == 0
    then (s, screen_clear v)
    else with_redirect_grid
        (blank (task_current_vga_cols s) (task_current_vga_rows s) v.color (redirect_grid s v))
        (s, v)

unfoldable pub outside : ℤ → ℤ → Bool
outside row col =
    ltb_ℤ row (pos 0)
    || leb vga_height (pos_part row)
    || ltb_ℤ col (pos 0)
    || leb vga_width (pos_part col)

unfoldable pub vga_put_at : ℤ → ℤ → ℕ → ℕ → Vga → Vga
unfolding outside vga_color_to_rgb
vga_put_at row col c attr v =
    if outside row col
    then v
    else if v.gui_active
    then record v {
      screen =
          fb_draw_char (pos (pos_part col * 8)) (pos (pos_part row * 16)) c
            (vga_color_to_rgb (attr % 16)) (vga_color_to_rgb (attr / 16 % 16)) true v.screen;
    }
    else record v {
      vga_memory = update v.vga_memory (pos_part row * vga_width + pos_part col) (vga_entry c attr);
    }

unfoldable pub vga_set_cursor_pos : ℕ → ℕ → Tasks × Vga → Tasks × Vga
vga_set_cursor_pos row col (s, v) =
    if task_current_vga_buf s == 0
    then (s, record v { cursor_row = row; cursor_col = col })
    else (move_redirect row col s, v)
