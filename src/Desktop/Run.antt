-- ===== src/Desktop/Run.antt =====
-- kernel/desktop.c: `desktop_run`, from the start to the end of its loop, and what its tasks do first.
use kronked_os.Prelude.{
  ℕ, zero, suc, ◌+◌, Bool, true, false, not, ◌&&◌, ◌||◌, Option, none, some, List, [], ◌∷◌,
  if◌then◌else◌,
}
use kronked_os.Prelude.Bits.{has_bit}
use kronked_os.Prelude.Int.{ℤ, pos, ltb_ℤ, ◌-ℤ◌}
use kronked_os.Prelude.Text.{text}
use kronked_os.Task.{Tasks}
use kronked_os.Task.Input.{task_set_input_redirect}
use kronked_os.Task.Redirect.{current_field, task_consume_vga_dirty}
use kronked_os.Vga.Put.{vga_clear, vga_set_redirect}
use kronked_os.Fb.{fb_fill_rect, fb_get_width, fb_get_height}
use kronked_os.Keyboard.{keyboard_has_char, keyboard_getchar}
use kronked_os.Mouse.{mouse_init, mouse_consume_dirty}
use kronked_os.Gui.{Devices, Gui, gui_init}
use kronked_os.Paging.{Paging}
use kronked_os.Machine.{Machine, with_paging, print}
use kronked_os.Syscall.{log, with_gui}
use kronked_os.Desktop.{
  Window, Desktop, Entries, max_windows, taskbar_h, term_cols, term_rows, deactivate, close_window,
}
use kronked_os.Desktop.Click.{hit_window, follow_button, mouse_round, route_keyboard}
use kronked_os.Desktop.Draw.{redraw}

-- What a terminal's and an editor's task do before `shell_run` and `editor_run`.
unfoldable pub enter_window : Entries → ℕ → Machine → Machine
enter_window o slot m =
    let self = current_field (λ t. t.id) m.tasks.ring in
    let tasks =
      vga_set_redirect (o.term_buffers slot) term_cols term_rows
        (task_set_input_redirect self true m.tasks) in
    let (s, v) = vga_clear (tasks, m.vga) in record m { tasks = s; vga = v }

unfoldable pub consume_hosted : Option ℕ → Bool × Tasks → Bool × Tasks
consume_hosted none r = r
consume_hosted (some id) (any, s) =
    let (dirty, s') = task_consume_vga_dirty id s in (any || dirty, s')

-- The loop over the windows' tasks whose output has changed.
unfoldable pub consume_dirty : List ℕ → (ℕ → Window) → Bool × Tasks → Bool × Tasks
unfolding consume_hosted
consume_dirty [] windows r = r
consume_dirty (slot ∷ order) windows r =
    consume_dirty order windows (consume_hosted (windows slot).hosted_task r)

unfoldable pub look_at_tasks : Desktop → Bool × Machine → Bool × Machine
unfolding consume_dirty
look_at_tasks d (need, m) =
    let (any, s) = consume_dirty d.window_order d.windows (false, m.tasks) in
    (need || any, record m { tasks = s })

-- A turn of the wait for the next frame; the keyboard's buffer holds fewer than 256 characters.
unfoldable pub wait_turn : Desktop → Bool × Machine → Bool × Machine
unfolding look_at_tasks
wait_turn d (need, m) =
    let (moved, mouse) = mouse_consume_dirty m.mouse in
    if keyboard_has_char m.tasks m.keyboard
    then (true, route_keyboard 256 d m)
    else if moved
    then (true, record m { mouse = mouse })
    else look_at_tasks d (need, m)

-- What the interrupts and the other tasks do behind a turn of the wait: to the kernel, and to the
-- static variables of desktop.c, which a task that runs the desktop itself changes.
abbrev pub Other : Type 0
Other = Desktop × Machine → Desktop × Machine

-- The wait, a turn for each of the `others`. How many turns there are is the timer's.
unfoldable pub wait_frame : List Other → Desktop → Bool × Machine → Desktop × Bool × Machine
unfolding wait_turn
wait_frame [] d (need, m) = (d, need, m)
wait_frame (other ∷ others) d r =
    let (need, m) = wait_turn d r in let (d', m') = other (d, m) in wait_frame others d' (need, m')

unfoldable pub is_some : Option ℕ → Bool
is_some none = false
is_some (some n) = true

-- Whether the mouse's part of the round sets `need_redraw` by a press, and by a drag.
unfoldable pub press_shows : ℤ → ℤ → ℕ → ℤ → Desktop → Bool
unfolding is_some
press_shows mx my buttons screen_h d =
    (has_bit buttons 0 && not (has_bit d.prev_buttons 0))
    && (not (ltb_ℤ my (screen_h -ℤ pos taskbar_h))
        || is_some (hit_window mx my d.windows d.window_order))

unfoldable pub drag_shows : ℕ → Option ℕ → Desktop → Bool
drag_shows buttons none d = false
drag_shows buttons (some slot) d = has_bit buttons 0 && (d.windows slot).active

unfoldable pub act : Entries → Bool → Desktop × Machine → Desktop × Machine
unfolding press_shows drag_shows
act o need (d, m) =
    let mx = m.mouse.mouse_x in
    let my = m.mouse.mouse_y in
    let buttons = m.mouse.mouse_buttons in
    let screen_h = pos (fb_get_height m.vga.screen) in
    let d' = (follow_button o mx my buttons screen_h (d, m)).0 in
    let (d2, m2) = mouse_round o mx my buttons screen_h (d, m) in
    if need || press_shows mx my buttons screen_h d || drag_shows buttons d'.dragging_window d'
    then (d2, redraw o (d2, m2))
    else (d2, m2)

-- A round of the loop.
unfoldable pub frame_round : Entries → List Other → Desktop × Machine → Desktop × Machine
unfolding wait_frame act
frame_round o others (d, m) =
    let (d', need, m') = wait_frame others d (false, m) in act o need (d', m')

-- The loop, for as many rounds as the list has, unless it is left before.
unfoldable pub frame_loop : Entries → List (List Other) → Desktop × Machine → Desktop × Machine
unfolding frame_round
frame_loop o [] dm = dm
frame_loop o (others ∷ rounds) (d, m) =
    let rest = frame_loop o rounds (frame_round o others (d, m)) in
    if d.quit_requested then (d, m) else rest

unfoldable pub close_all : ℕ → ℕ → Desktop × Machine → Desktop × Machine
close_all zero i dm = dm
close_all (suc n) i (d, m) =
    close_all n (i + 1) (if (d.windows i).active then close_window i (d, m) else (d, m))

unfoldable pub close_windows : Desktop × Machine → Desktop × Machine
close_windows dm = close_all max_windows 0 dm

unfoldable pub leave_desktop : Desktop × Machine → Desktop × Machine
unfolding close_windows
leave_desktop (d, m) =
    let (d', m') = close_windows (d, m) in
    let w = pos (fb_get_width m'.vga.screen) in
    let h = pos (fb_get_height m'.vga.screen) in
    let black = record (m'.vga) { screen = fb_fill_rect (pos 0) (pos 0) w h 0 m'.vga.screen } in
    let (s, v) = vga_clear (m'.tasks, black) in
    let cleared = record m' { tasks = s; vga = v } in
    (
      d',
      log (text "[serial] desktop_run: quit\n") (
          print
            (text
              "(Still fully alive throughout -- this is the same console session, just no longer full-screen graphics.)\n\n")
            (print (text "Returned to the console from the GUI desktop.\n") cleared)),
    )

-- `while (keyboard_has_char()) keyboard_getchar();`, for at most `n` characters.
unfoldable pub drain : ℕ → Machine → Machine
drain zero m = m
drain (suc n) m = elim (keyboard_getchar m.tasks m.keyboard) [
  | none ↦ m
  | some (c, tasks, keyboard) ↦ drain n (record m { tasks = tasks; keyboard = keyboard })
]

unfoldable pub deactivate_all : ℕ → ℕ → Desktop → Desktop
unfolding deactivate
deactivate_all zero i d = d
deactivate_all (suc n) i d = deactivate_all n (i + 1) (deactivate i d)

unfoldable pub fresh_desktop : Desktop → Desktop
unfolding deactivate_all
fresh_desktop d = record (deactivate_all max_windows 0 d) {
  window_order = [];
  focused_slot = none;
  quit_requested = false;
  dragging_window = none;
}

unfoldable pub start_mouse : Machine → Machine
start_mouse m = record m {
  mouse = mouse_init (pos (fb_get_width m.vga.screen)) (pos (fb_get_height m.vga.screen)) m.mouse;
}

-- What the run comes to: gui_init has failed, the loop goes on behind the rounds that are given, or
-- it has been left.
pub data DesktopRun : Type 0 where
  failed : Machine → DesktopRun
  shown : Desktop → Machine → DesktopRun
  left : Desktop → Machine → DesktopRun

unfoldable pub ended : Desktop × Machine → DesktopRun
unfolding leave_desktop
ended (d, m) =
    if d.quit_requested then left (leave_desktop (d, m)).0 (leave_desktop (d, m)).1 else shown d m

unfoldable pub start_desktop : Entries → Desktop → Machine → Desktop × Machine
unfolding fresh_desktop start_mouse drain
start_desktop o d m = let d' = fresh_desktop d in (d', redraw o (d', drain 256 (start_mouse m)))

unfoldable pub after_gui_init :
    Entries → List (List Other) → Desktop → Machine → Bool × Gui × Paging → DesktopRun
unfolding start_desktop frame_loop ended
after_gui_init o rounds d m (ok, g, p) =
    if ok
    then ended (frame_loop o rounds (start_desktop o d (with_gui g p m)))
    else failed (log (text "[serial] desktop_run: gui_init failed, aborting\n") (with_paging p m))

unfoldable pub desktop_run : Devices → Entries → List (List Other) → Desktop → Machine → DesktopRun
unfolding after_gui_init
desktop_run devices o rounds d m =
    after_gui_init o rounds d m (gui_init devices m.gui m.heap.paging)
