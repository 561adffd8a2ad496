-- ===== src/Task/Input.antt =====
-- kernel/task.c: the private input queue of a task, filled by the compositor and read by the task
-- itself.
pub mod Queue
use kronked_os.Prelude.{
  ℕ, ◌+◌, ◌%◌, ◌^◌, Bool, true, false, not, Option, none, some, List, [], ◌∷◌, ◌==◌, if◌then◌else◌,
  update,
}
use kronked_os.Task.{Task, Tasks, at_task, at_current, find_task, task_unblock}

-- `TASK_INPUT_QUEUE_SIZE`
abbrev pub input_queue_size : ℕ
input_queue_size = 64

unfoldable pub redirect_input : Bool → Task → Task
redirect_input enabled t = record t { use_input_redirect = enabled; input_head = 0; input_tail = 0 }

unfoldable pub task_set_input_redirect : ℕ → Bool → Tasks → Tasks
unfolding redirect_input
task_set_input_redirect id enabled s = record s {
  ring = at_task id (redirect_input enabled) s.ring;
}

unfoldable pub input_full : Task → Bool
input_full t = (t.input_head + 1) % input_queue_size == t.input_tail

unfoldable pub store_char : ℕ → Task → Task
store_char c t = record t {
  input_queue = update t.input_queue t.input_head c;
  input_head = (t.input_head + 1) % input_queue_size;
}

-- What follows the read of the task's fields; a pointer to no task is not followed.
unfoldable pub push_to : Option Task → ℕ → Tasks → Bool × Tasks
unfolding input_full store_char
push_to none c s = (false, s)
push_to (some t) c s =
    if input_full t
    then (false, s)
    else (true, task_unblock t.id (record s { ring = at_task t.id (store_char c) s.ring }))

unfoldable pub task_push_input_char : ℕ → ℕ → Tasks → Bool × Tasks
unfolding push_to
task_push_input_char id c s = push_to (find_task id s.ring) c s

unfoldable pub uses_redirect : List Task → Bool
uses_redirect [] = false
uses_redirect (t ∷ ts) = t.use_input_redirect

unfoldable pub task_current_uses_input_redirect : Tasks → Bool
unfolding uses_redirect
task_current_uses_input_redirect s = uses_redirect s.ring

unfoldable pub has_input : List Task → Bool
has_input [] = false
has_input (t ∷ ts) = not (t.input_head == t.input_tail)

unfoldable pub task_current_input_has_char : Tasks → Bool
unfolding has_input
task_current_input_has_char s = has_input s.ring

unfoldable pub take_char : Task → Task
take_char t = record t { input_tail = (t.input_tail + 1) % input_queue_size }

unfoldable pub first_char : List Task → ℕ
first_char [] = 0
first_char (t ∷ ts) = t.input_queue t.input_tail

-- The character 0 stands for "none".
unfoldable pub task_current_input_getchar : Tasks → ℕ × Tasks
unfolding take_char first_char
task_current_input_getchar s =
    if task_current_input_has_char s
    then (first_char s.ring, record s { ring = at_current take_char s.ring })
    else (0, s)
