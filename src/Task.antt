-- ===== src/Task.antt =====
-- kernel/task.c: the task structs and the circular list that joins them. The list is held as it is
-- read from `current_task` along `next`, so its head is the running task and the last one's `next`
-- is the head again; `[]` is a null `current_task`. A pointer to a task is the task's `id`, which
-- `next_task_id` gives to one task only.
pub mod Create
pub mod Sched
pub mod Exit
pub mod Input
pub mod Redirect
pub mod Valid
mod Tests
use kronked_os.Prelude.{
  ℕ, ◌+◌, ◌%◌, ◌^◌, Bool, true, false, Option, none, some, List, [], ◌∷◌, map, ◌==◌, if◌then◌else◌,
}

-- `enum task_state`
pub data TaskState : Type 0 where
  ready blocked zombie : TaskState

-- `struct task`. `stack` holds the words that the creator put on the new kernel stack, from `esp`
-- up; `vga_redirect_buf` is 0 where the pointer is null.
pub record Task : Type 0 where
  pub id : ℕ
  pub esp : ℕ
  pub stack : List ℕ
  pub entry : ℕ
  pub is_user : Bool
  pub user_entry : ℕ
  pub user_stack_top : ℕ
  pub page_directory : ℕ
  pub kernel_stack_top : ℕ
  pub state : TaskState
  pub parent : Option ℕ
  pub exit_code : ℕ
  pub use_input_redirect : Bool
  pub input_queue : ℕ → ℕ
  pub input_head : ℕ
  pub input_tail : ℕ
  pub vga_redirect_buf : ℕ
  pub vga_redirect_cols : ℕ
  pub vga_redirect_rows : ℕ
  pub vga_cursor_row : ℕ
  pub vga_cursor_col : ℕ
  pub vga_redirect_dirty : Bool

-- The static variables of task.c, the TSS's kernel stack and CR3, which `schedule` writes, and
-- whether the machine has stopped for good.
pub record Tasks : Type 0 where
  pub ring : List Task
  pub next_task_id : ℕ
  pub scheduling_enabled : Bool
  pub task_count : ℕ
  pub tss_esp0 : ℕ
  pub cr3 : ℕ
  pub halted : Bool

-- An assignment through a pointer to the task `id`.
unfoldable pub at_task : ℕ → (Task → Task) → List Task → List Task
at_task id f [] = []
at_task id f (t ∷ ts) = (if t.id == id then f t else t) ∷ at_task id f ts

-- An assignment through `current_task`.
unfoldable pub at_current : (Task → Task) → List Task → List Task
at_current f [] = []
at_current f (t ∷ ts) = f t ∷ ts

-- A read through a pointer.
unfoldable pub find_task : ℕ → List Task → Option Task
find_task id [] = none
find_task id (t ∷ ts) = if t.id == id then some t else find_task id ts

unfoldable pub is_ready : TaskState → Bool
is_ready ready = true
is_ready blocked = false
is_ready zombie = false

unfoldable pub is_zombie : TaskState → Bool
is_zombie zombie = true
is_zombie ready = false
is_zombie blocked = false

-- `if (t->state == TASK_BLOCKED) t->state = TASK_READY;`
unfoldable pub wake : TaskState → TaskState
wake blocked = ready
wake ready = ready
wake zombie = zombie

unfoldable pub unblock_one : Task → Task
unblock_one t = record t { state = wake t.state }

unfoldable pub task_unblock : ℕ → Tasks → Tasks
task_unblock id s = record s { ring = at_task id unblock_one s.ring }

unfoldable pub unblock_parent : Option ℕ → Tasks → Tasks
unblock_parent none s = s
unblock_parent (some p) s = task_unblock p s
