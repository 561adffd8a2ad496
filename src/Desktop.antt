-- ===== src/Desktop.antt =====
-- kernel/desktop.c: the windows, their order and what a click does; `window_order` is the list of its
-- entries in use, from the back to the front, and -1 is `none`.
pub mod Click
pub mod Order
pub mod Valid
pub mod Round
pub mod Draw
pub mod Run
pub mod Safe
mod Tests
use kronked_os.Prelude.{
  ℕ, zero, suc, ◌+◌, ◌-◌, ◌*◌, Bool, true, false, not, ◌&&◌, ◌||◌, Option, none, some, List, [],
  ◌∷◌, ◌++◌, ◌==◌, ltb, leb, if◌then◌else◌, update,
}
use kronked_os.Prelude.Bits.{has_bit}
use kronked_os.Prelude.Int.{ℤ, pos, ltb_ℤ, ◌+ℤ◌, ◌-ℤ◌}
use kronked_os.Prelude.Loops.{fill_row}
use kronked_os.Prelude.Text.{text}
use kronked_os.Task.{Task}
use kronked_os.Task.Create.{stack_size, task_create}
use kronked_os.Task.Exit.{task_force_terminate}
use kronked_os.Heap.{kmalloc}
use kronked_os.Machine.{Machine, with_tasks}

abbrev pub max_windows : ℕ
max_windows = 6

abbrev pub titlebar_h : ℕ
titlebar_h = 24

abbrev pub close_btn_size : ℕ
close_btn_size = 16

abbrev pub taskbar_h : ℕ
taskbar_h = 40

abbrev pub term_cols : ℕ
term_cols = 60

abbrev pub term_rows : ℕ
term_rows = 20

-- `struct gui_window`; `is_hosted` is set with `hosted_task`.
pub record Window : Type 0 where
  pub active : Bool
  pub x : ℤ
  pub y : ℤ
  pub w : ℤ
  pub h : ℤ
  pub title : List ℕ
  pub hosted_task : Option ℕ
  pub buf_slot : ℕ

-- The static variables.
pub record Desktop : Type 0 where
  pub windows : ℕ → Window
  pub window_order : List ℕ
  pub focused_slot : Option ℕ
  pub dragging_window : Option ℕ
  pub drag_offset_x : ℤ
  pub drag_offset_y : ℤ
  pub prev_buttons : ℕ
  pub quit_requested : Bool

-- The first slot from `i` on that is not active.
unfoldable pub free_from : ℕ → ℕ → Desktop → Option ℕ
free_from zero i d = none
free_from (suc n) i d =
    let rest = free_from n (i + 1) d in if (d.windows i).active then rest else some i

unfoldable pub find_free_slot : Desktop → Option ℕ
unfolding free_from
find_free_slot d = free_from max_windows 0 d

unfoldable pub remove_slot : ℕ → List ℕ → List ℕ
remove_slot slot [] = []
remove_slot slot (s ∷ order) = if s == slot then order else s ∷ remove_slot slot order

unfoldable pub order_remove : ℕ → Desktop → Desktop
unfolding remove_slot
order_remove slot d = record d { window_order = remove_slot slot d.window_order }

unfoldable pub order_push_front : ℕ → Desktop → Desktop
order_push_front slot d = record d { window_order = d.window_order ++ (slot ∷ []) }

unfoldable pub bring_to_front : ℕ → Desktop → Desktop
unfolding order_remove order_push_front
bring_to_front slot d = order_push_front slot (order_remove slot d)

unfoldable pub last_slot : List ℕ → Option ℕ
last_slot [] = none
last_slot (s ∷ []) = some s
last_slot (s ∷ t ∷ order) = last_slot (t ∷ order)

unfoldable pub is_slot : Option ℕ → ℕ → Bool
is_slot none slot = false
is_slot (some s) slot = s == slot

unfoldable pub deactivate : ℕ → Desktop → Desktop
deactivate slot d = record d {
  windows = update d.windows slot (record (d.windows slot) { active = false });
}

-- The focus and the drag behind the removal of the slot.
unfoldable pub refocus : ℕ → Desktop → Desktop
unfolding last_slot is_slot
refocus slot d = record d {
  focused_slot = if is_slot d.focused_slot slot then last_slot d.window_order else d.focused_slot;
  dragging_window = if is_slot d.dragging_window slot then none else d.dragging_window;
}

-- `close_window`, on the desktop's side.
unfoldable pub close_slot : ℕ → Desktop → Desktop
unfolding deactivate order_remove refocus
close_slot slot d =
    if (d.windows slot).active then refocus slot (order_remove slot (deactivate slot d)) else d

unfoldable pub terminate : Option ℕ → Machine → Machine
terminate none m = m
terminate (some id) m = with_tasks (task_force_terminate id 0 m.tasks) m

unfoldable pub close_window : ℕ → Desktop × Machine → Desktop × Machine
unfolding close_slot terminate
close_window slot (d, m) = (
  close_slot slot d,
  if (d.windows slot).active then terminate (d.windows slot).hosted_task m else m,
)

unfoldable pub count_active : ℕ → ℕ → Desktop → ℕ
count_active zero i d = 0
count_active (suc n) i d = (if (d.windows i).active then 1 else 0) + count_active n (i + 1) d

unfoldable pub scratch_name : ℕ → List ℕ
scratch_name slot = text "scratch" ++ ((48 + slot) ∷ text ".txt")

unfoldable pub title_of : Bool → ℕ → List ℕ
unfolding scratch_name
title_of is_editor slot =
    if is_editor then scratch_name slot else text "Terminal " ++ ((49 + slot) ∷ [])

unfoldable pub new_window : ℕ → ℕ → List ℕ → ℕ → Window
new_window slot n title task = record {
  active = true;
  x = pos (100 + 28 * n);
  y = pos (90 + 24 * n);
  w = pos (term_cols * 8 + 16);
  h = pos (term_rows * 16 + titlebar_h + 16);
  title = title;
  hosted_task = some task;
  buf_slot = slot;
}

-- `open_window` for the slot that is free, with the task that it has created.
unfoldable pub open_slot : ℕ → List ℕ → ℕ → Desktop → Desktop
unfolding count_active new_window order_push_front
open_slot slot title task d = record (order_push_front slot d) {
  windows = update d.windows slot (new_window slot (count_active max_windows 0 d) title task);
  focused_slot = some slot;
}

-- The addresses of the entry points and of `term_buffers` by slot, of the trampoline and of the kernel's directory, and
-- what `kmalloc` leaves in the block of a task struct.
pub record Entries : Type 0 where
  pub terminal_entries : ℕ → ℕ
  pub editor_entries : ℕ → ℕ
  pub term_buffers : ℕ → ℕ
  pub trampoline : ℕ
  pub kernel_dir : ℕ
  pub block : Task

unfoldable pub create_hosted : Entries → ℕ → Machine → ℕ × Machine
create_hosted o entry m =
    let (p, h1) = kmalloc 152 m.heap in
    let (stack_mem, h2) = kmalloc stack_size h1 in
    let (id, tasks) = task_create o.trampoline o.block entry o.kernel_dir stack_mem m.tasks in
    (id, record m { tasks = tasks; heap = h2; struct_at = update m.struct_at id p })

unfoldable pub clear_buffer : ℕ → Machine → Machine
clear_buffer p m = record m {
  vga = record (m.vga) {
    buffers = update m.vga.buffers p (fill_row (term_rows * term_cols) 0 0 (m.vga.buffers p));
  };
}

unfoldable pub open_in : Option ℕ → Entries → Bool → Desktop × Machine → Desktop × Machine
unfolding open_slot create_hosted clear_buffer title_of
open_in none o is_editor (d, m) = (d, m)
open_in (some slot) o is_editor (d, m) =
    let (id, m') =
      create_hosted o (if is_editor then o.editor_entries slot else o.terminal_entries slot)
        (clear_buffer (o.term_buffers slot) m) in
    (open_slot slot (title_of is_editor slot) id d, m')

unfoldable pub open_window : Entries → Bool → Desktop × Machine → Desktop × Machine
unfolding find_free_slot open_in
open_window o is_editor (d, m) = open_in (find_free_slot d) o is_editor (d, m)

unfoldable pub point_in_rect : ℤ → ℤ → ℤ → ℤ → ℤ → ℤ → Bool
point_in_rect px py x y w h =
    not (ltb_ℤ px x) && ltb_ℤ px (x +ℤ w) && not (ltb_ℤ py y) && ltb_ℤ py (y +ℤ h)

unfoldable pub close_button_hit : Window → ℤ → ℤ → Bool
unfolding point_in_rect
close_button_hit win px py =
    point_in_rect px py (win.x +ℤ win.w -ℤ pos close_btn_size -ℤ pos 4) (win.y +ℤ pos 4)
      (pos close_btn_size) (pos close_btn_size)
