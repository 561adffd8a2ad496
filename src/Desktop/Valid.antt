-- ===== src/Desktop/Valid.antt =====
-- kernel/desktop.c: the order of the windows, the focus and the drag against the windows that are there.
use kronked_os.Prelude.{
  ℕ, zero, suc, ◌+◌, ◌≤◌, ◌<◌, ◌≡◌, refl, ap, ◌∙◌, Bool, true, false, ◌&&◌, Option, none, some,
  List, [], ◌∷◌, ◌++◌, ltb, if◌then◌else◌, length, arith, Bool-cases, inl, inr,
}
use kronked_os.Prelude.Int.{ℤ}
use kronked_os.Machine.{Machine}
use kronked_os.Desktop.{
  Desktop, Entries, max_windows, free_from, find_free_slot, remove_slot, order_remove,
  order_push_front, bring_to_front, last_slot, is_slot, deactivate, refocus, close_slot, open_slot,
  open_in, open_window, new_window,
}
use kronked_os.Desktop.Click.{focus, start_drag}
use kronked_os.Desktop.Order.{
  is_in, Distinct, Held, is_in-remove_slot, remove_slot-Distinct, is_in-push, push-Distinct,
  last_slot-Held, length-Distinct,
}

-- The order holds the active slots, each once; the focused slot and the dragged one are among them.
pub record Valid (d : Desktop) : Type 0 where
  pub distinct : Distinct d.window_order
  pub agree : (i : ℕ) → is_in i d.window_order ≡ (ltb i max_windows && (d.windows i).active)
  pub focused : Held d.focused_slot d.window_order
  pub dragged : Held d.dragging_window d.window_order

-- The array of the order has room for what is in it.
pub Valid-fits : (d : Desktop) → Valid d → length d.window_order ≤ max_windows
Valid-fits d v =
    length-Distinct max_windows d.window_order v.distinct (λ i h. ground (arith, h, v.agree i))

keep-Held :
    (o : Option ℕ) (slot : ℕ) (order : List ℕ)
    → Distinct order
    → Held o order
    → is_slot o slot ≡ false
    → Held o (remove_slot slot order)
unfolding is_slot
keep-Held none slot order d h ne = refl
keep-Held (some s) slot order d h ne = ground (arith, h, ne, is_in-remove_slot s slot order d)

refocused :
    (o other : Option ℕ) (slot : ℕ) (order : List ℕ)
    → Distinct order
    → Held o order
    → Held other (remove_slot slot order)
    → Held (if is_slot o slot then other else o) (remove_slot slot order)
refocused o other slot order d h k = elim (Bool-cases (is_slot o slot)) [
  | inl e ↦ rw e k
  | inr e ↦ rw e (keep-Held o slot order d h e)
]

pub hit_self : (b : Bool) (s : ℕ) (order : List ℕ) → Held (if b then some s else none) (s ∷ order)
unfolding is_in
hit_self true s order = ground arith
hit_self false s order = refl

pub close_slot-Valid : (slot : ℕ) (d : Desktop) → Valid d → Valid (close_slot slot d)
unfolding close_slot refocus order_remove deactivate
close_slot-Valid slot d v = elim (Bool-cases (d.windows slot).active) [
  | inr e ↦ rw e v
  | inl e ↦ rw e (record {
    distinct = remove_slot-Distinct slot d.window_order v.distinct;
    agree = λ i. ground (arith, v.agree i, is_in-remove_slot i slot d.window_order v.distinct);
    focused =
        refocused d.focused_slot (last_slot (remove_slot slot d.window_order)) slot d.window_order
          v.distinct v.focused (last_slot-Held (remove_slot slot d.window_order));
    dragged = refocused d.dragging_window none slot d.window_order v.distinct v.dragged refl;
  })
]

same_slot : (s i : ℕ) (order : List ℕ) → s ≡ i → is_in s order ≡ is_in i order
same_slot s i order e = ap (λ k. is_in k order) e

-- A window that is brought to the front stays the only entry of its slot.
fronted :
    (i slot : ℕ) (order : List ℕ)
    → Distinct order
    → is_in slot order ≡ true
    → is_in i (remove_slot slot order ++ (slot ∷ [])) ≡ is_in i order
fronted i slot order d h = ground (
  arith,
  is_in-push i slot (remove_slot slot order),
  is_in-remove_slot i slot order d,
  same_slot slot i order,
  h,
)

fronted-Distinct :
    (slot : ℕ) (order : List ℕ) → Distinct order → Distinct (remove_slot slot order ++ (slot ∷ []))
fronted-Distinct slot order d =
    push-Distinct slot (remove_slot slot order) (remove_slot-Distinct slot order d)
      (ground (arith, is_in-remove_slot slot slot order d))

fronted-Held :
    (o : Option ℕ) (slot : ℕ) (order : List ℕ)
    → Distinct order
    → is_in slot order ≡ true
    → Held o order
    → Held o (remove_slot slot order ++ (slot ∷ []))
fronted-Held none slot order d h k = refl
fronted-Held (some s) slot order d h k = fronted s slot order d h ∙ k

pub focus-Valid :
    (slot : ℕ) (d : Desktop) → Valid d → is_in slot d.window_order ≡ true → Valid (focus slot d)
unfolding focus bring_to_front order_push_front order_remove
focus-Valid slot d v h = record {
  distinct = fronted-Distinct slot d.window_order v.distinct;
  agree = λ i. fronted i slot d.window_order v.distinct h ∙ v.agree i;
  focused = fronted slot slot d.window_order v.distinct h ∙ h;
  dragged = fronted-Held d.dragging_window slot d.window_order v.distinct h v.dragged;
}

pub start_drag-Valid :
    (slot : ℕ) (mx my : ℤ) (d : Desktop)
    → Valid d
    → is_in slot d.window_order ≡ true
    → Valid (start_drag slot mx my d)
unfolding start_drag
start_drag-Valid slot mx my d v h =
    focus-Valid slot _
      (record { distinct = v.distinct; agree = v.agree; focused = v.focused; dragged = h }) h

push-Held :
    (o : Option ℕ) (slot : ℕ) (order : List ℕ) → Held o order → Held o (order ++ (slot ∷ []))
push-Held none slot order h = refl
push-Held (some s) slot order h = ground (arith, h, is_in-push s slot order)

abbrev Free : Desktop → Option ℕ → Type 0
Free d none = true ≡ true
Free d (some slot) = (slot < max_windows) × ((d.windows slot).active ≡ false)

-- The slot that is found is free.
free_from-Free : (n i : ℕ) (d : Desktop) → i + n ≤ max_windows → Free d (free_from n i d)
unfolding free_from
free_from-Free zero i d h = refl
free_from-Free (suc n) i d h = elim (Bool-cases (d.windows i).active) [
  | inl e ↦ rw e (free_from-Free n (i + 1) d (omega arith))
  | inr e ↦ rw e (omega arith, e)
]

open_slot-Valid :
    (slot task : ℕ) (title : List ℕ) (d : Desktop)
    → Valid d
    → Free d (some slot)
    → Valid (open_slot slot title task d)
unfolding open_slot order_push_front new_window
open_slot-Valid slot task title d v free =
    let absent : is_in slot d.window_order ≡ false = ground (arith, v.agree slot, free) in
    record {
      distinct = push-Distinct slot d.window_order v.distinct absent;
      agree = λ i. ground (
        arith,
        is_in-push i slot d.window_order,
        v.agree i,
        free.0,
        same_slot slot i d.window_order,
      );
      focused = ground (arith, is_in-push slot slot d.window_order);
      dragged = push-Held d.dragging_window slot d.window_order v.dragged;
    }

open_in-Valid :
    (o : Option ℕ) (x : Entries) (b : Bool) (d : Desktop) (m : Machine)
    → Valid d
    → Free d o
    → Valid (open_in o x b (d, m)).0
unfolding open_in
open_in-Valid none x b d m v free = v
open_in-Valid (some slot) x b d m v free = open_slot-Valid slot _ _ d v free

pub open_window-Valid :
    (x : Entries) (b : Bool) (d : Desktop) (m : Machine)
    → Valid d
    → Valid (open_window x b (d, m)).0
unfolding open_window find_free_slot
open_window-Valid x b d m v =
    open_in-Valid (free_from max_windows 0 d) x b d m v
      (free_from-Free max_windows 0 d (omega arith))
