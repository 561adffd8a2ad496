-- ===== src/Vga.antt =====
-- kernel/vga.c: the text console, on the text memory of the card, on the framebuffer once graphics
-- mode is on, and on the buffer of a task whose output is redirected.
pub mod Screen
pub mod Put
pub mod Scroll
pub mod OnScreen
pub mod Bounds
mod Tests
use Prim.Native.Nat.{bit_or}
use kronked_os.Prelude.{
  ℕ, zero, suc, ◌+◌, ◌-◌, ◌*◌, Bool, true, false, List, [], ◌∷◌, ◌==◌, ltb, leb, if◌then◌else◌,
  update,
}
use kronked_os.Prelude.Loops.{fill_row}
use kronked_os.Fb.{Framebuffer}

-- The cells of a screen and its cursor.
pub record Grid : Type 0 where
  pub cells : ℕ → ℕ
  pub row : ℕ
  pub col : ℕ

-- The text memory, the static variables of vga.c, gui.c's `g_gui_ready`, the framebuffer, the
-- memory of the redirection buffers by their pointer, and what the serial port was sent.
pub record Vga : Type 0 where
  pub vga_memory : ℕ → ℕ
  pub cursor_row : ℕ
  pub cursor_col : ℕ
  pub color : ℕ
  pub real_screen_buf : ℕ → ℕ
  pub real_screen_initialized : Bool
  pub gui_active : Bool
  pub screen : Framebuffer
  pub buffers : ℕ → ℕ → ℕ
  pub serial : List ℕ

-- `VGA_WIDTH`, `VGA_HEIGHT`, `REAL_FB_COLS` and `REAL_FB_ROWS`
abbrev pub vga_width : ℕ
vga_width = 80

abbrev pub vga_height : ℕ
vga_height = 25

abbrev pub real_fb_cols : ℕ
real_fb_cols = 128

abbrev pub real_fb_rows : ℕ
real_fb_rows = 48

-- A `char` above 127 is extended with its sign.
unfoldable pub vga_entry : ℕ → ℕ → ℕ
vga_entry c color = bit_or (if ltb c 128 then c else c + 0xff00) (color * 256)

-- `m[dst++] = m[src++]`, `n` times.
unfoldable pub copy_cells : ℕ → ℕ → ℕ → (ℕ → ℕ) → ℕ → ℕ
copy_cells zero src dst m = m
copy_cells (suc n) src dst m = copy_cells n (src + 1) (dst + 1) (update m dst (m src))

-- `k` rows from `y` on, each to the row above it.
unfoldable pub copy_rows : ℕ → ℕ → ℕ → (ℕ → ℕ) → ℕ → ℕ
unfolding copy_cells
copy_rows zero y cols m = m
copy_rows (suc k) y cols m =
    copy_rows k (y + 1) cols (copy_cells cols (y * cols) ((y - 1) * cols) m)

-- The loops of `redirect_scroll`, of `vga_scroll` and of the framebuffer's screen.
unfoldable pub scroll_cells : ℕ → ℕ → ℕ → (ℕ → ℕ) → ℕ → ℕ
scroll_cells cols rows color m =
    fill_row cols ((rows - 1) * cols) (vga_entry 32 color) (copy_rows (rows - 1) 1 cols m)

unfoldable pub scroll : ℕ → ℕ → ℕ → Grid → Grid
scroll cols rows color g = record g { cells = scroll_cells cols rows color g.cells; row = rows - 1 }

unfoldable pub new_line : Grid → Grid
new_line g = record g { col = 0; row = g.row + 1 }

-- The cursor of `\b`: the first cell of the screen is its own predecessor.
unfoldable pub step_back : ℕ → Grid → Grid
step_back cols g =
    if ltb 0 g.col
    then record g { col = g.col - 1 }
    else if ltb 0 g.row
    then record g { row = g.row - 1; col = cols - 1 }
    else g

unfoldable pub write_cell : ℕ → ℕ → ℕ → Grid → Grid
write_cell cols c color g = record g {
  cells = update g.cells (g.row * cols + g.col) (vga_entry c color);
}

unfoldable pub step_on : ℕ → Grid → Grid
step_on cols g =
    if leb cols (g.col + 1)
    then record g { col = 0; row = g.row + 1 }
    else record g { col = g.col + 1 }

-- A character's effect before the test for the last row.
unfoldable pub put_char : ℕ → ℕ → ℕ → Grid → Grid
unfolding new_line step_back write_cell step_on
put_char cols color c g =
    if c == 10
    then new_line g
    else if c == 8
    then write_cell cols 32 color (step_back cols g)
    else step_on cols (write_cell cols c color g)

unfoldable pub grid_putc : ℕ → ℕ → ℕ → ℕ → Grid → Grid
unfolding put_char scroll scroll_cells copy_rows
grid_putc cols rows color c g =
    let g' = put_char cols color c g in if leb rows g'.row then scroll cols rows color g' else g'
