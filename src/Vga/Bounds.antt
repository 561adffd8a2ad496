-- ===== src/Vga/Bounds.antt =====
-- kernel/vga.c: the cursor stays on the screen that it belongs to.
use kronked_os.Prelude.{
  ℕ, ◌<◌, ◌≡◌, refl, sym, Bool, true, false, List, [], ◌∷◌, ◌==◌, if◌then◌else◌, ap, Bool-cases,
  inl, inr,
}
use mathlib.Core.Path.{subst}
use kronked_os.Task.{Task, Tasks, at_current}
use kronked_os.Task.Redirect.{
  task_current_vga_buf, task_current_vga_cols, task_current_vga_rows, task_current_vga_mark_dirty,
  current_field,
}
use kronked_os.Vga.{Vga}
use kronked_os.Vga.Put.{
  vga_putc, vga_write, mirror, screen_putc, redirect_putc, redirect_grid, with_redirect_grid,
  move_redirect, set_cursor,
}
use kronked_os.Vga.OnScreen.{grid_putc-InGrid, OnScreen, screen_putc-OnScreen}

redirect_keeps : (c : ℕ) (s : Tasks) (v : Vga) → OnScreen v → OnScreen (redirect_putc c (s, v)).1
unfolding redirect_putc with_redirect_grid
redirect_keeps c s v h = record { row_in = h.row_in; col_in = h.col_in }

-- Where the output is redirected, the running task's cursor is in its buffer.
abbrev pub RedirectIn : Tasks → Type 0
RedirectIn s =
    (task_current_vga_buf s == 0) ≡ false
    → (current_field (λ t. t.vga_cursor_row) s.ring < task_current_vga_rows s)
      × (current_field (λ t. t.vga_cursor_col) s.ring < task_current_vga_cols s)

moved_list :
    (ts : List Task) (r k : ℕ)
    → (current_field (λ t. t.vga_redirect_buf) ts == 0) ≡ false
    → r < current_field (λ t. t.vga_redirect_rows) ts
    → k < current_field (λ t. t.vga_redirect_cols) ts
    → let after =
        at_current (λ t. record t { vga_redirect_dirty = true }) (at_current (set_cursor r k) ts) in
      (current_field (λ t. t.vga_cursor_row) after < current_field (λ t. t.vga_redirect_rows) after)
      × (current_field (λ t. t.vga_cursor_col) after
          < current_field (λ t. t.vga_redirect_cols) after)
unfolding at_current current_field set_cursor
moved_list [] r k used hr hk = elim hr [ ]
moved_list (t ∷ ts) r k used hr hk = (hr, hk)

same_buffer :
    (ts : List Task) (r k : ℕ)
    → current_field
        (λ t. t.vga_redirect_buf)
        (at_current (λ t. record t { vga_redirect_dirty = true }) (at_current (set_cursor r k) ts))
      ≡ current_field (λ t. t.vga_redirect_buf) ts
unfolding at_current current_field set_cursor
same_buffer [] r k = refl
same_buffer (t ∷ ts) r k = refl

redirect_putc-RedirectIn :
    (c : ℕ) (s : Tasks) (v : Vga)
    → (task_current_vga_buf s == 0) ≡ false
    → RedirectIn s
    → RedirectIn (redirect_putc c (s, v)).0
unfolding redirect_putc with_redirect_grid move_redirect redirect_grid task_current_vga_mark_dirty
    task_current_vga_buf task_current_vga_rows task_current_vga_cols
redirect_putc-RedirectIn c s v used h _ =
    let k =
      grid_putc-InGrid (task_current_vga_cols s) (task_current_vga_rows s) v.color c
        (redirect_grid s v) (record { row_in = (h used).0; col_in = (h used).1 }) in
    moved_list s.ring _ _ used k.row_in k.col_in

-- The console's cursors, each on its screen.
pub record Fits (con : Tasks × Vga) : Type 0 where
  pub on_screen : OnScreen con.1
  pub redirect_in : RedirectIn con.0

mirror-OnScreen : (c : ℕ) (v : Vga) → OnScreen v → OnScreen (mirror c v)
unfolding mirror
mirror-OnScreen c v h = record { row_in = h.row_in; col_in = h.col_in }

vga_putc-Fits : (c : ℕ) (con : Tasks × Vga) → Fits con → Fits (vga_putc c con)
unfolding vga_putc
vga_putc-Fits c (s, v) h = elim (Bool-cases (task_current_vga_buf s == 0)) [
  | inl e ↦
      subst (λ w. Fits (w.0, mirror c w.1)) (sym (ap branch e))
        (record {
          on_screen = mirror-OnScreen c _ (screen_putc-OnScreen c v h.on_screen);
          redirect_in = h.redirect_in;
        })
  | inr e ↦
      subst (λ w. Fits (w.0, mirror c w.1)) (sym (ap branch e))
        (record {
          on_screen = mirror-OnScreen c _ (redirect_keeps c s v h.on_screen);
          redirect_in = redirect_putc-RedirectIn c s v e h.redirect_in;
        })
]
  where
    branch : Bool → Tasks × Vga
    branch b = if b then (s, screen_putc c v) else redirect_putc c (s, v)

-- Whatever text is written, to whichever of the three outputs, the cursor stays on its screen: in
-- the buffer of a redirected task, and in the 25 rows of 80 or, with graphics mode on, the 48 rows
-- of 128 of the real screen.
pub vga_write-Fits : (s : List ℕ) (con : Tasks × Vga) → Fits con → Fits (vga_write s con)
unfolding vga_write
vga_write-Fits [] con h = h
vga_write-Fits (c ∷ s) con h = vga_write-Fits s (vga_putc c con) (vga_putc-Fits c con h)
