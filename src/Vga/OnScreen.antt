-- ===== src/Vga/OnScreen.antt =====
-- kernel/vga.c: the cursor and the real screens.
use kronked_os.Prelude.{
  ℕ, zero, suc, ◌+◌, ◌≤◌, ◌<◌, ◌≡◌, refl, sym, Bool, true, false, ◌==◌, leb, if◌then◌else◌, arith,
  ap, ◌∙◌, Bool-cases, inl, inr,
}
use mathlib.Core.Path.{subst}
use kronked_os.Vga.{
  Grid, Vga, vga_width, vga_height, real_fb_cols, real_fb_rows, put_char, scroll, grid_putc,
  new_line, step_back, write_cell, step_on,
}
use kronked_os.Vga.Screen.{
  real_putc_framebuffer, real_screen_ensure_init, real_screen_reset, real_render_all, render_rows,
  render_cols, real_render_char, putc_real, scroll_real, render_change, real_grid, with_real_grid,
}
use kronked_os.Vga.Put.{screen_putc, text_putc, text_grid, with_text_grid}

pub record InGrid (cols rows : ℕ) (g : Grid) : Type 0 where
  pub row_in : g.row < rows
  pub col_in : g.col < cols

-- Every character leaves the cursor on the screen.
pub grid_putc-InGrid :
    (cols rows color c : ℕ) (g : Grid)
    → InGrid cols rows g
    → InGrid cols rows (grid_putc cols rows color c g)
unfolding grid_putc put_char scroll new_line step_back write_cell step_on
grid_putc-InGrid cols rows color c g h = record {
  row_in = ground (arith, h.row_in, h.col_in);
  col_in = ground (arith, h.row_in, h.col_in);
}

abbrev pub screen_cols : Vga → ℕ
screen_cols v = if v.gui_active then real_fb_cols else vga_width

abbrev pub screen_rows : Vga → ℕ
screen_rows v = if v.gui_active then real_fb_rows else vga_height

-- Drawing changes nothing but the pixels.
abbrev Redrawn : Vga → Vga → Type 0
Redrawn v w = w ≡ record v { screen = w.screen }

render_cols-Redrawn : (n r c : ℕ) (v : Vga) → Redrawn v (render_cols n r c v)
unfolding render_cols real_render_char
render_cols-Redrawn zero r c v = refl
render_cols-Redrawn (suc n) r c v = render_cols-Redrawn n r (c + 1) (real_render_char r c v)

render_rows-Redrawn : (n r : ℕ) (v : Vga) → Redrawn v (render_rows n r v)
unfolding render_rows
render_rows-Redrawn zero r v = refl
render_rows-Redrawn (suc n) r v =
    rw (render_rows-Redrawn n (r + 1) (render_cols real_fb_cols r 0 v))
      (rw (render_cols-Redrawn real_fb_cols r 0 v) refl)

real_render_all-Redrawn : (v : Vga) → Redrawn v (real_render_all v)
unfolding real_render_all
real_render_all-Redrawn v = render_rows-Redrawn real_fb_rows 0 _

render_change-Redrawn : (c : ℕ) (g : Grid) (v : Vga) → Redrawn v (render_change c g v)
unfolding render_change real_render_char
render_change-Redrawn c g v = elim (Bool-cases (c == 10)) [
  | inl e ↦ rw e refl
  | inr e ↦ elim (Bool-cases (c == 8)) [ inl b ↦ rw (e, b) refl | inr b ↦ rw (e, b) refl ]
]

-- The cursor of the screen on the framebuffer, with graphics mode on.
record OnFramebuffer (v : Vga) : Type 0 where
  pub row_in : v.cursor_row < real_fb_rows
  pub col_in : v.cursor_col < real_fb_cols
  pub active : v.gui_active ≡ true

Redrawn-OnFramebuffer : (v w : Vga) → Redrawn v w → OnFramebuffer v → OnFramebuffer w
Redrawn-OnFramebuffer v w e h =
    rw e (record { row_in = h.row_in; col_in = h.col_in; active = h.active })

real_render_all-OnFramebuffer : (v : Vga) → OnFramebuffer v → OnFramebuffer (real_render_all v)
real_render_all-OnFramebuffer v h = Redrawn-OnFramebuffer v _ (real_render_all-Redrawn v) h

scroll_real-OnFramebuffer :
    (w : Vga)
    → w.cursor_row ≤ real_fb_rows
    → w.cursor_col < real_fb_cols
    → w.gui_active ≡ true
    → OnFramebuffer (scroll_real w)
unfolding scroll_real with_real_grid scroll real_grid
scroll_real-OnFramebuffer w hr hc a = elim (Bool-cases (leb real_fb_rows w.cursor_row)) [
  | inl e ↦
      rw e
        (real_render_all-OnFramebuffer _ (record { row_in = omega arith; col_in = hc; active = a }))
  | inr e ↦ rw e (record { row_in = ground arith; col_in = hc; active = a })
]

put_char_range :
    (cols rows color c : ℕ) (g : Grid)
    → InGrid cols rows g
    → ((put_char cols color c g).row ≤ rows) × ((put_char cols color c g).col < cols)
unfolding put_char new_line step_back write_cell step_on
put_char_range cols rows color c g h = ground (arith, h.row_in, h.col_in)

putc_real-OnFramebuffer : (c : ℕ) (v : Vga) → OnFramebuffer v → OnFramebuffer (putc_real c v)
unfolding putc_real with_real_grid real_grid
putc_real-OnFramebuffer c v h =
    let g = put_char real_fb_cols v.color c (real_grid v) in
    let range =
      put_char_range real_fb_cols real_fb_rows v.color c (real_grid v)
        (record { row_in = h.row_in; col_in = h.col_in }) in
    let w = with_real_grid g v in
    let drawn = render_change-Redrawn c (real_grid v) w in
    let same_row : (render_change c (real_grid v) w).cursor_row ≡ g.row =
      ap (λ u. u.cursor_row) drawn in
    let same_col : (render_change c (real_grid v) w).cursor_col ≡ g.col =
      ap (λ u. u.cursor_col) drawn in
    scroll_real-OnFramebuffer (render_change c (real_grid v) w) (omega (arith, same_row, range.0))
      (omega (arith, same_col, range.1)) (ap (λ u. u.gui_active) drawn ∙ h.active)

reset-OnFramebuffer : (v : Vga) → OnFramebuffer v → OnFramebuffer (real_screen_reset v)
unfolding real_screen_reset
reset-OnFramebuffer v h =
    real_render_all-OnFramebuffer _
      (record { row_in = h.row_in; col_in = h.col_in; active = h.active })

ensure-OnFramebuffer : (v : Vga) → OnFramebuffer v → OnFramebuffer (real_screen_ensure_init v)
unfolding real_screen_ensure_init
ensure-OnFramebuffer v h = elim (Bool-cases v.real_screen_initialized) [
  | inl e ↦ simp e h
  | inr e ↦ simp e (reset-OnFramebuffer v h)
]

real_putc-OnFramebuffer :
    (c : ℕ) (v : Vga) → OnFramebuffer v → OnFramebuffer (real_putc_framebuffer c v)
unfolding real_putc_framebuffer
real_putc-OnFramebuffer c v h = putc_real-OnFramebuffer c _ (ensure-OnFramebuffer v h)

-- The cursor of the screen.
pub record OnScreen (v : Vga) : Type 0 where
  pub row_in : v.cursor_row < screen_rows v
  pub col_in : v.cursor_col < screen_cols v

framebuffer-OnScreen : (v : Vga) → OnFramebuffer v → OnScreen v
framebuffer-OnScreen v h = record { row_in = rw h.active h.row_in; col_in = rw h.active h.col_in }

text_putc-OnScreen :
    (c : ℕ) (v : Vga) → v.gui_active ≡ false → OnScreen v → OnScreen (text_putc c v)
unfolding text_putc with_text_grid text_grid
text_putc-OnScreen c v e h =
    let k =
      grid_putc-InGrid vga_width vga_height v.color c (text_grid v)
        (record { row_in = rw e at h.row_in; col_in = rw e at h.col_in }) in
    record { row_in = rw e k.row_in; col_in = rw e k.col_in }

pub screen_putc-OnScreen : (c : ℕ) (v : Vga) → OnScreen v → OnScreen (screen_putc c v)
unfolding screen_putc
screen_putc-OnScreen c v h = elim (Bool-cases v.gui_active) [
  | inl e ↦ subst OnScreen (sym (ap branch e)) (
      framebuffer-OnScreen _ (
        real_putc-OnFramebuffer c v
          (record { row_in = rw e at h.row_in; col_in = rw e at h.col_in; active = e })))
  | inr e ↦ subst OnScreen (sym (ap branch e)) (text_putc-OnScreen c v e h)
]
  where
    branch : Bool → Vga
    branch b = if b then real_putc_framebuffer c v else text_putc c v
