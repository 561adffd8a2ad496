-- ===== src/Task/Redirect.antt =====
-- kernel/task.c: the redirection of a task's console output, on the task's side.
use kronked_os.Prelude.{ℕ, Bool, true, false, Option, none, some, List, [], ◌∷◌, if◌then◌else◌}
use kronked_os.Task.{Task, Tasks, at_task, at_current, find_task}

unfoldable pub redirect_output : ℕ → ℕ → ℕ → Task → Task
redirect_output buf cols rows t = record t {
  vga_redirect_buf = buf;
  vga_redirect_cols = cols;
  vga_redirect_rows = rows;
  vga_cursor_row = 0;
  vga_cursor_col = 0;
  vga_redirect_dirty = true;
}

unfoldable pub task_set_vga_redirect : ℕ → ℕ → ℕ → ℕ → Tasks → Tasks
unfolding redirect_output
task_set_vga_redirect id buf cols rows s = record s {
  ring = at_task id (redirect_output buf cols rows) s.ring;
}

-- A field of the running task, or 0 where there is none.
unfoldable pub current_field : (Task → ℕ) → List Task → ℕ
current_field field [] = 0
current_field field (t ∷ ts) = field t

unfoldable pub task_current_vga_buf : Tasks → ℕ
task_current_vga_buf s = current_field (λ t. t.vga_redirect_buf) s.ring

unfoldable pub task_current_vga_cols : Tasks → ℕ
task_current_vga_cols s = current_field (λ t. t.vga_redirect_cols) s.ring

unfoldable pub task_current_vga_rows : Tasks → ℕ
task_current_vga_rows s = current_field (λ t. t.vga_redirect_rows) s.ring

unfoldable pub task_current_vga_mark_dirty : Tasks → Tasks
task_current_vga_mark_dirty s = record s {
  ring = at_current (λ t. record t { vga_redirect_dirty = true }) s.ring;
}

unfoldable pub dirty_of : Option Task → Bool
dirty_of none = false
dirty_of (some t) = t.vga_redirect_dirty

unfoldable pub task_consume_vga_dirty : ℕ → Tasks → Bool × Tasks
task_consume_vga_dirty id s =
    if dirty_of (find_task id s.ring)
    then (
      true,
      record s { ring = at_task id (λ t. record t { vga_redirect_dirty = false }) s.ring },
    )
    else (false, s)
