-- ===== src/Desktop/Round.antt =====
-- kernel/desktop.c: a round of the loop against the windows that are there.
use kronked_os.Prelude.{
  ℕ, ◌≤◌, ◌≡◌, refl, ap, Bool, true, false, Option, none, some, List, [], ◌∷◌, if◌then◌else◌,
  length, arith, Bool-cases, Option-cases, inl, inr,
}
use kronked_os.Prelude.Bits.{has_bit}
use kronked_os.Prelude.Int.{ℤ, pos}
use kronked_os.Machine.{Machine}
use kronked_os.Desktop.{
  Window, Desktop, Entries, max_windows, close_window, close_button_hit, point_in_rect, titlebar_h,
}
use kronked_os.Desktop.Click.{
  taskbar_click, press_window, hit_window, press_hit, press, drag_to, stop_drag, follow_button,
  follow_drag, mouse_round,
}
use kronked_os.Desktop.Order.{is_in, Held, Held-cons}
use kronked_os.Desktop.Valid.{
  Valid, Valid-fits, close_slot-Valid, focus-Valid, start_drag-Valid, open_window-Valid, hit_self,
}

hit_window-Held :
    (mx my : ℤ) (windows : ℕ → Window) (order : List ℕ)
    → Held (hit_window mx my windows order) order
unfolding hit_window
hit_window-Held mx my windows [] = refl
hit_window-Held mx my windows (s ∷ order) = elim (Option-cases (hit_window mx my windows order)) [
  | inr (t, e) ↦
      let h : is_in t order ≡ true = rw e at (hit_window-Held mx my windows order) in
      rw e (Held-cons (some t) s order h)
  | inl e ↦ rw e (hit_self _ s order)
]

pub either :
    (b : Bool) (x y : Desktop × Machine) → Valid x.0 → Valid y.0 → Valid (if b then x else y).0
either true x y hx hy = hx
either false x y hx hy = hy

press_window-Valid :
    (slot : ℕ) (mx my : ℤ) (d : Desktop) (m : Machine)
    → Valid d
    → is_in slot d.window_order ≡ true
    → Valid (press_window slot mx my (d, m)).0
unfolding press_window close_window
press_window-Valid slot mx my d m v h =
    either (close_button_hit (d.windows slot) mx my) _ _ (close_slot-Valid slot d v) (
      either
        (point_in_rect mx my (d.windows slot).x (d.windows slot).y (d.windows slot).w
          (pos titlebar_h))
        _ _ (start_drag-Valid slot mx my d v h) (focus-Valid slot d v h))

press_hit-Valid :
    (o : Option ℕ) (mx my : ℤ) (d : Desktop) (m : Machine)
    → Valid d
    → Held o d.window_order
    → Valid (press_hit o mx my (d, m)).0
unfolding press_hit
press_hit-Valid none mx my d m v h = v
press_hit-Valid (some slot) mx my d m v h = press_window-Valid slot mx my d m v h

quit-Valid : (d : Desktop) → Valid d → Valid (record d { quit_requested = true })
quit-Valid d v = record {
  distinct = v.distinct;
  agree = v.agree;
  focused = v.focused;
  dragged = v.dragged;
}

taskbar_click-Valid :
    (x : Entries) (mx my screen_h : ℤ) (d : Desktop) (m : Machine)
    → Valid d
    → Valid (taskbar_click x mx my screen_h (d, m)).0
unfolding taskbar_click
taskbar_click-Valid x mx my screen_h d m v = either _ _ _ v (
    either _ _ _ (open_window-Valid x false d m v)
      (either _ _ _ (open_window-Valid x true d m v) (either _ _ _ (quit-Valid d v) v)))

press-Valid :
    (x : Entries) (mx my screen_h : ℤ) (d : Desktop) (m : Machine)
    → Valid d
    → Valid (press x mx my screen_h (d, m)).0
unfolding press
press-Valid x mx my screen_h d m v =
    either _ _ _
      (press_hit-Valid (hit_window mx my d.windows d.window_order) mx my d m v
        (hit_window-Held mx my d.windows d.window_order))
      (taskbar_click-Valid x mx my screen_h d m v)

same_active : (slot i : ℕ) (d : Desktop) → slot ≡ i → (d.windows slot).active ≡ (d.windows i).active
same_active slot i d e = ap (λ k. (d.windows k).active) e

drag_to-Valid : (o : Option ℕ) (mx my : ℤ) (d : Desktop) → Valid d → Valid (drag_to o mx my d)
unfolding drag_to
drag_to-Valid none mx my d v = v
drag_to-Valid (some slot) mx my d v = elim (Bool-cases (d.windows slot).active) [
  | inr e ↦ rw e v
  | inl e ↦ rw e (record {
    distinct = v.distinct;
    agree = λ i. ground (arith, v.agree i, same_active slot i d);
    focused = v.focused;
    dragged = v.dragged;
  })
]

one_of : (b : Bool) (x y : Desktop) → Valid x → Valid y → Valid (if b then x else y)
one_of true x y hx hy = hx
one_of false x y hx hy = hy

follow_button-Valid :
    (x : Entries) (mx my : ℤ) (buttons : ℕ) (screen_h : ℤ) (d : Desktop) (m : Machine)
    → Valid d
    → Valid (follow_button x mx my buttons screen_h (d, m)).0
unfolding follow_button stop_drag
follow_button-Valid x mx my buttons screen_h d m v =
    either _ _ _ (press-Valid x mx my screen_h d m v) (
      either _ _ _ v
        (record { distinct = v.distinct; agree = v.agree; focused = v.focused; dragged = refl }))

follow_drag-Valid :
    (mx my : ℤ) (buttons : ℕ) (d : Desktop) → Valid d → Valid (follow_drag mx my buttons d)
unfolding follow_drag
follow_drag-Valid mx my buttons d v =
    let k = one_of (has_bit buttons 0) _ _ (drag_to-Valid d.dragging_window mx my d v) v in
    record { distinct = k.distinct; agree = k.agree; focused = k.focused; dragged = k.dragged }

-- Whatever the mouse does in a round of the desktop's loop, window_order afterwards holds exactly the
-- slots of the open windows, each once and so at most the six that its array has room for, and the
-- focused slot and the dragged one, if any, are open windows.
pub mouse_round-Valid :
    (x : Entries) (mx my : ℤ) (buttons : ℕ) (screen_h : ℤ) (d : Desktop) (m : Machine)
    → Valid d
    → Valid (mouse_round x mx my buttons screen_h (d, m)).0
      × (length (mouse_round x mx my buttons screen_h (d, m)).0.window_order ≤ max_windows)
unfolding mouse_round
mouse_round-Valid x mx my buttons screen_h d m v =
    let k =
      follow_drag-Valid mx my buttons _ (follow_button-Valid x mx my buttons screen_h d m v) in
    (k, Valid-fits _ k)
