-- ===== src/Desktop/Click.antt =====
-- kernel/desktop.c: clicks, drags and the keyboard, and the round of the desktop's loop.
use kronked_os.Prelude.{
  ℕ, zero, suc, true, false, not, ◌&&◌, Option, none, some, List, [], ◌∷◌, if◌then◌else◌, update,
}
use kronked_os.Prelude.Bits.{has_bit}
use kronked_os.Prelude.Int.{ℤ, pos, ltb_ℤ, ◌+ℤ◌, ◌-ℤ◌}
use kronked_os.Task.Input.{task_push_input_char}
use kronked_os.Keyboard.{keyboard_getchar}
use kronked_os.Machine.{Machine}
use kronked_os.Desktop.{
  Window, Desktop, Entries, titlebar_h, taskbar_h, bring_to_front, close_window, open_window,
  point_in_rect, close_button_hit,
}

unfoldable pub taskbar_click : Entries → ℤ → ℤ → ℤ → Desktop × Machine → Desktop × Machine
unfolding point_in_rect
taskbar_click o mx my screen_h (d, m) =
    let y = screen_h -ℤ pos taskbar_h in
    let by = y +ℤ pos 6 in
    if ltb_ℤ my y
    then (d, m)
    else if point_in_rect mx my (pos 12) by (pos 128) (pos 28)
    then open_window o false (d, m)
    else if point_in_rect mx my (pos 150) by (pos 128) (pos 28)
    then open_window o true (d, m)
    else if point_in_rect mx my (pos 288) by (pos 96) (pos 28)
    then (record d { quit_requested = true }, m)
    else (d, m)

unfoldable pub focus : ℕ → Desktop → Desktop
unfolding bring_to_front
focus slot d = record (bring_to_front slot d) { focused_slot = some slot }

unfoldable pub start_drag : ℕ → ℤ → ℤ → Desktop → Desktop
unfolding focus
start_drag slot mx my d = focus slot (record d {
  dragging_window = some slot;
  drag_offset_x = mx -ℤ (d.windows slot).x;
  drag_offset_y = my -ℤ (d.windows slot).y;
})

-- A click on the window of the slot.
unfoldable pub press_window : ℕ → ℤ → ℤ → Desktop × Machine → Desktop × Machine
unfolding close_window start_drag focus
press_window slot mx my (d, m) =
    let win = d.windows slot in
    if close_button_hit win mx my
    then close_window slot (d, m)
    else if point_in_rect mx my win.x win.y win.w (pos titlebar_h)
    then (start_drag slot mx my d, m)
    else (focus slot d, m)

-- The slot in front whose window is hit; the list goes from the back to the front.
unfoldable pub hit_window : ℤ → ℤ → (ℕ → Window) → List ℕ → Option ℕ
hit_window mx my windows [] = none
hit_window mx my windows (s ∷ order) = elim (hit_window mx my windows order) [
  | some t ↦ some t
  | none ↦
      let win = windows s in if point_in_rect mx my win.x win.y win.w win.h then some s else none
]

unfoldable pub press_hit : Option ℕ → ℤ → ℤ → Desktop × Machine → Desktop × Machine
unfolding press_window
press_hit none mx my dm = dm
press_hit (some slot) mx my dm = press_window slot mx my dm

unfoldable pub press : Entries → ℤ → ℤ → ℤ → Desktop × Machine → Desktop × Machine
unfolding taskbar_click press_hit hit_window
press o mx my screen_h (d, m) =
    if ltb_ℤ my (screen_h -ℤ pos taskbar_h)
    then press_hit (hit_window mx my d.windows d.window_order) mx my (d, m)
    else taskbar_click o mx my screen_h (d, m)

unfoldable pub drag_to : Option ℕ → ℤ → ℤ → Desktop → Desktop
drag_to none mx my d = d
drag_to (some slot) mx my d =
    let win = d.windows slot in
    if win.active
    then record d {
      windows =
          update d.windows slot
            (record win { x = mx -ℤ d.drag_offset_x; y = my -ℤ d.drag_offset_y });
    }
    else d

unfoldable pub stop_drag : Desktop → Desktop
stop_drag d = record d { dragging_window = none }

-- The left button against its last state.
unfoldable pub follow_button : Entries → ℤ → ℤ → ℕ → ℤ → Desktop × Machine → Desktop × Machine
unfolding press stop_drag
follow_button o mx my buttons screen_h (d, m) =
    if has_bit buttons 0 && not (has_bit d.prev_buttons 0)
    then press o mx my screen_h (d, m)
    else if has_bit buttons 0
    then (d, m)
    else (stop_drag d, m)

unfoldable pub follow_drag : ℤ → ℤ → ℕ → Desktop → Desktop
unfolding drag_to
follow_drag mx my buttons d =
    record (if has_bit buttons 0 then drag_to d.dragging_window mx my d else d) {
      prev_buttons = buttons;
    }

-- The mouse's part of a round of `desktop_run`.
unfoldable pub mouse_round : Entries → ℤ → ℤ → ℕ → ℤ → Desktop × Machine → Desktop × Machine
unfolding follow_button follow_drag
mouse_round o mx my buttons screen_h (d, m) =
    let (d', m') = follow_button o mx my buttons screen_h (d, m) in
    (follow_drag mx my buttons d', m')

-- The character goes to the focused window's task.
unfoldable pub route_to : Option ℕ → ℕ → Desktop → Machine → Machine
route_to none c d m = m
route_to (some slot) c d m =
    if (d.windows slot).active
    then elim (d.windows slot).hosted_task [
      | none ↦ m
      | some id ↦ record m { tasks = (task_push_input_char id c m.tasks).1 }
    ]
    else m

-- The loop of `route_keyboard`, for at most `rounds` characters.
unfoldable pub route_keyboard : ℕ → Desktop → Machine → Machine
unfolding route_to
route_keyboard zero d m = m
route_keyboard (suc rounds) d m = elim (keyboard_getchar m.tasks m.keyboard) [
  | none ↦ m
  | some (c, tasks, keyboard) ↦
      route_keyboard rounds d
        (route_to d.focused_slot c d (record m { tasks = tasks; keyboard = keyboard }))
]
