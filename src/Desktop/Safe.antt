-- ===== src/Desktop/Safe.antt =====
-- kernel/desktop.c: the windows through a whole run of the desktop.
use kronked_os.Prelude.{
  ℕ, zero, suc, ◌+◌, ◌≤◌, ◌<◌, ◌≡◌, refl, ap, ◌∙◌, Bool, true, false, List, [], ◌∷◌, ◌==◌,
  if◌then◌else◌, length, sym, arith, Bool-cases, inl, inr,
}
use mathlib.Core.Path.{subst}
use kronked_os.Prelude.Loops.{within}
use kronked_os.Prelude.Int.{pos}
use kronked_os.Paging.{Paging}
use kronked_os.Gui.{Devices, Gui, gui_init}
use kronked_os.Machine.{Machine}
use kronked_os.Fb.{fb_get_height}
use kronked_os.Desktop.{
  Desktop, Entries, max_windows, deactivate, order_remove, refocus, close_slot, close_window,
}
use kronked_os.Desktop.Order.{is_in}
use kronked_os.Desktop.Valid.{Valid, Valid-fits, close_slot-Valid}
use kronked_os.Desktop.Round.{either, mouse_round-Valid}
use kronked_os.Desktop.Run.{
  Other, DesktopRun, failed, shown, left, wait_turn, wait_frame, act, frame_round, frame_loop,
  close_all, close_windows, leave_desktop, deactivate_all, fresh_desktop, start_desktop, ended,
  after_gui_init, desktop_run,
}

abbrev active : Desktop → ℕ → Bool
active d i = (d.windows i).active

deactivate_all_lem :
    (n i j : ℕ) (d : Desktop)
    → active (deactivate_all n i d) j ≡ (if within i n j then false else active d j)
unfolding deactivate_all deactivate
deactivate_all_lem zero i j d = ground arith
deactivate_all_lem (suc n) i j d = ground (arith, deactivate_all_lem n (i + 1) j (deactivate i d))

fresh_desktop-Valid : (d : Desktop) → Valid (fresh_desktop d)
unfolding fresh_desktop is_in
fresh_desktop-Valid d = record {
  distinct = refl;
  agree = λ i. ground (arith, deactivate_all_lem max_windows 0 i d);
  focused = refl;
  dragged = refl;
}

act-Valid :
    (o : Entries) (need : Bool) (d : Desktop) (m : Machine) → Valid d → Valid (act o need (d, m)).0
unfolding act
act-Valid o need d m v =
    let k =
      (mouse_round-Valid o m.mouse.mouse_x m.mouse.mouse_y m.mouse.mouse_buttons
        (pos (fb_get_height m.vga.screen)) d m v).0 in
    either _ _ _ k k

-- None of the others changes the desktop's variables.
unfoldable pub TurnsKeep : List Other → Type 0
TurnsKeep [] = true ≡ true
TurnsKeep (other ∷ others) = ((d : Desktop) (m : Machine) → (other (d, m)).0 ≡ d) × TurnsKeep others

unfoldable pub RoundsKeep : List (List Other) → Type 0
RoundsKeep [] = true ≡ true
RoundsKeep (others ∷ rounds) = TurnsKeep others × RoundsKeep rounds

wait_frame-keeps :
    (others : List Other) (d : Desktop) (r : Bool × Machine)
    → TurnsKeep others
    → (wait_frame others d r).0 ≡ d
unfolding wait_frame TurnsKeep
wait_frame-keeps [] d r k = refl
wait_frame-keeps (other ∷ others) d r k =
    let (need, m) = wait_turn d r in
    wait_frame-keeps others (other (d, m)).0 (need, (other (d, m)).1) k.1 ∙ k.0 d m

frame_loop-Valid :
    (o : Entries) (rounds : List (List Other)) (d : Desktop) (m : Machine)
    → RoundsKeep rounds
    → Valid d
    → Valid (frame_loop o rounds (d, m)).0
unfolding frame_loop frame_round RoundsKeep
frame_loop-Valid o [] d m k v = v
frame_loop-Valid o (others ∷ rounds) d m k v =
    let r = wait_frame others d (false, m) in
    let w = subst Valid (sym (wait_frame-keeps others d (false, m) k.0)) v in
    either d.quit_requested _ _ v (frame_loop-Valid o rounds _ _ k.1 (act-Valid o r.1 r.0 r.2 w))

close_slot_lem :
    (slot j : ℕ) (d : Desktop)
    → active (close_slot slot d) j ≡ (if slot == j then false else active d j)
unfolding close_slot refocus order_remove deactivate
close_slot_lem slot j d = elim (Bool-cases (d.windows slot).active) [
  | inl e ↦ rw e (ground arith)
  | inr e ↦ rw e (ground (arith, e, ap (active d) {x = slot} {y = j}))
]

-- What closing all windows from the slot `i` on leaves.
record Closes (n i : ℕ) (d d' : Desktop) : Type 0 where
  valid : Valid d'
  activity : (j : ℕ) → active d' j ≡ (if within i n j then false else active d j)

either_way :
    (b : Bool) (x y : Desktop × Machine) (j : ℕ) (w : Bool)
    → active x.0 j ≡ w
    → (b ≡ false → active y.0 j ≡ w)
    → active (if b then x else y).0 j ≡ w
either_way true x y j w hx hy = hx
either_way false x y j w hx hy = hy refl

-- The slot `i` is closed if it is open.
close_one-Closes :
    (i : ℕ) (d : Desktop) (m : Machine)
    → Valid d
    → Closes 1 i d (if (d.windows i).active then close_window i (d, m) else (d, m)).0
unfolding close_window
close_one-Closes i d m v = record {
  valid = either (d.windows i).active _ _ (close_slot-Valid i d v) v;
  activity = λ j.
      either_way (d.windows i).active (close_window i (d, m)) (d, m) j _
        (close_slot_lem i j d ∙ ground arith)
        (λ e. ground (arith, e, ap (active d) {x = i} {y = j}));
}

Closes-trans :
    (n i : ℕ) (d d1 d2 : Desktop) → Closes 1 i d d1 → Closes n (i + 1) d1 d2 → Closes (suc n) i d d2
Closes-trans n i d d1 d2 a b = record {
  valid = b.valid;
  activity = λ j. ground (arith, a.activity j, b.activity j);
}

close_all-Closes :
    (n i : ℕ) (d : Desktop) (m : Machine) → Valid d → Closes n i d (close_all n i (d, m)).0
unfolding close_all close_window
close_all-Closes zero i d m v = record { valid = v; activity = λ j. ground arith }
close_all-Closes (suc n) i d m v =
    let x = if (d.windows i).active then close_window i (d, m) else (d, m) in
    let one = close_one-Closes i d m v in
    Closes-trans n i d x.0 _ one (close_all-Closes n (i + 1) x.0 x.1 one.valid)

no_windows : (order : List ℕ) → ((i : ℕ) → is_in i order ≡ false) → order ≡ []
unfolding is_in
no_windows [] h = refl
no_windows (s ∷ order) h = absurd (ground (arith, h s))

-- What holds of the run's end, or of its state where it goes on.
abbrev pub Sound : DesktopRun → Type 0
Sound (failed m) = true ≡ true
Sound (shown d m) = Valid d × (length d.window_order ≤ max_windows)
Sound (left d m) =
    ((i : ℕ) → i < max_windows → (d.windows i).active ≡ false) × (d.window_order ≡ [])

close_windows-Closes :
    (d : Desktop) (m : Machine) → Valid d → Closes max_windows 0 d (close_windows (d, m)).0
unfolding close_windows
close_windows-Closes d m v = close_all-Closes max_windows 0 d m v

leave_desktop_lem :
    (d : Desktop) (m : Machine)
    → Valid d
    → Sound (left (leave_desktop (d, m)).0 (leave_desktop (d, m)).1)
unfolding leave_desktop
leave_desktop_lem d m v =
    let c = close_windows-Closes d m v in
    let closed : (i : ℕ) → i < max_windows → active (close_windows (d, m)).0 i ≡ false =
      λ i h. ground (arith, c.activity i, h) in
    (closed, no_windows _ (λ i. ground (arith, c.valid.agree i, c.activity i)))

either_end : (b : Bool) (x y : DesktopRun) → Sound x → Sound y → Sound (if b then x else y)
either_end true x y hx hy = hx
either_end false x y hx hy = hy

ended-Sound : (d : Desktop) (m : Machine) → Valid d → Sound (ended (d, m))
unfolding ended
ended-Sound d m v = either_end d.quit_requested _ _ (leave_desktop_lem d m v) (v, Valid-fits d v)

after_gui_init-Sound :
    (o : Entries) (rounds : List (List Other)) (d : Desktop) (m : Machine) (r : Bool × Gui × Paging)
    → RoundsKeep rounds
    → Sound (after_gui_init o rounds d m r)
unfolding after_gui_init start_desktop
after_gui_init-Sound o rounds d m (false, g, p) k = refl
after_gui_init-Sound o rounds d m (true, g, p) k =
    ended-Sound _ _ (frame_loop-Valid o rounds _ _ k (fresh_desktop-Valid d))

-- Where no other task runs the desktop itself, so that its variables are its own: whatever was there
-- before, the user does with mouse and keys, and the interrupts and other tasks do to the kernel
-- between the turns of its waits, in every round of desktop_run window_order holds exactly the slots
-- of the open windows, each once and so at most the six that its array has room for, and the focused
-- slot and the dragged one, if any, are open windows; when the desktop has been left, no window is open
-- and window_order is empty.
pub desktop_run_lem :
    (devices : Devices) (o : Entries) (rounds : List (List Other)) (d : Desktop) (m : Machine)
    → RoundsKeep rounds
    → Sound (desktop_run devices o rounds d m)
unfolding desktop_run
desktop_run_lem devices o rounds d m k =
    after_gui_init-Sound o rounds d m (gui_init devices m.gui m.heap.paging) k
