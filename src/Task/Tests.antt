-- ===== src/Task/Tests.antt =====
-- The theorems on kernel/task.c at three tasks.
use kronked_os.Prelude.{
  ℕ, ◌+◌, ◌^◌, ◌<◌, ◌≤◌, ◌≡◌, refl, true, false, Option, none, some, List, [], ◌∷◌, length, ◌⊎◌,
  arith,
}
use kronked_os.Task.{TaskState, ready, blocked, zombie, Task, Tasks, find_task, is_ready, is_zombie}
use kronked_os.Task.Create.{task_init, task_alloc_common}
use kronked_os.Task.Create.Early.{early_switch}
use kronked_os.Task.Sched.{schedule}
use kronked_os.Task.Sched.Pick.{Switched, NoneReady, schedule_lem}
use kronked_os.Task.Sched.Fair.{current_task, schedules, round_robin}
use kronked_os.Task.Exit.{task_exit_current, task_wait_any}
use kronked_os.Task.Exit.Dies.{Exited, task_exit_current_lem}
use kronked_os.Task.Exit.Waits.{WaitOutcome, task_wait_any_lem}
use kronked_os.Task.Input.{task_push_input_char}
use kronked_os.Task.Input.Queue.{InBounds, PushOutcome, task_push_input_char_lem}
use kronked_os.Task.Valid.{IsValid, count_id}
use kronked_os.Task.Valid.Steps.{Reach, Step, no_tasks, Reach-IsValid}

abbrev task : ℕ → Option ℕ → TaskState → Task
task id parent state = record {
  id = id;
  esp = 0x400100 + id;
  stack = [];
  entry = 0x100000;
  is_user = false;
  user_entry = 0;
  user_stack_top = 0;
  page_directory = 0x100000;
  kernel_stack_top = 0x402000;
  state = state;
  parent = parent;
  exit_code = 0;
  use_input_redirect = true;
  input_queue = λ _. 97;
  input_head = 3;
  input_tail = 1;
  vga_redirect_buf = 0;
  vga_redirect_cols = 0;
  vga_redirect_rows = 0;
  vga_cursor_row = 0;
  vga_cursor_col = 0;
  vga_redirect_dirty = false;
}

abbrev tasks : List Task → Tasks
tasks ring = record {
  ring = ring;
  next_task_id = 3;
  scheduling_enabled = true;
  task_count = 3;
  tss_esp0 = 0x402000;
  cr3 = 0x100000;
  halted = false;
}

-- The kernel task, which waits, with a running child and a READY one; and later, with a dead child.
abbrev kernel : TaskState → Task
kernel = task 0 none

abbrev shell : TaskState → Task
shell = task 1 (some 0)

abbrev program : TaskState → Task
program = task 2 (some 0)

abbrev three : Tasks
three = tasks (shell ready ∷ kernel blocked ∷ program ready ∷ [])

abbrev later : Tasks
later = tasks (kernel ready ∷ shell ready ∷ program zombie ∷ [])

queue-InBounds : (id : ℕ) (parent : Option ℕ) (state : TaskState) → InBounds (task id parent state)
queue-InBounds id parent state = record { head_in = omega arith; tail_in = omega arith }

later-IsValid : IsValid later
unfolding count_id
later-IsValid = record { unique = λ i. ground arith; below = λ i h. ground arith; counted = refl }

early_switch_example :
    (t : Task) × (current_task (schedule (task_alloc_common (shell ready) three).1).ring ≡ some t)
    × (t.id ≡ three.next_task_id)
    × (t.esp ≡ (shell ready).esp)
    × (t.kernel_stack_top ≡ (shell ready).kernel_stack_top)
early_switch_example =
    early_switch (shell ready) three (shell ready) (kernel blocked ∷ program ready ∷ []) refl refl

schedule_lem_example :
    Switched three (shell ready) (kernel blocked ∷ program ready ∷ []) (schedule three)
    ⊎ (NoneReady (kernel blocked ∷ program ready ∷ []) × (schedule three ≡ three))
schedule_lem_example =
    schedule_lem three (shell ready) (kernel blocked ∷ program ready ∷ []) refl refl refl

program_ready : is_ready (program ready).state ≡ true
unfolding is_ready
program_ready = refl

round_robin_example :
    (n : ℕ) × (n ≤ length {A = Task} (kernel blocked ∷ []) + 1)
    × (current_task (schedules n three).ring ≡ some (program ready))
round_robin_example =
    round_robin three (shell ready) (program ready) (kernel blocked ∷ []) [] refl refl program_ready

kernel_found : find_task 0 (kernel blocked ∷ program ready ∷ []) ≡ some (kernel blocked)
unfolding find_task
kernel_found = refl

kernel_alive : is_zombie (kernel blocked).state ≡ false
unfolding is_zombie
kernel_alive = refl

task_exit_current_lem_example :
    Exited three (shell ready) (kernel blocked ∷ program ready ∷ []) 0 7 (task_exit_current 7 three)
task_exit_current_lem_example =
    task_exit_current_lem three (shell ready) (kernel blocked) (kernel blocked ∷ program ready ∷ [])
      0 7 refl refl refl (omega arith) refl (λ e. absurd (omega arith)) kernel_found kernel_alive

task_wait_any_lem_example :
    WaitOutcome later (kernel ready) (shell ready ∷ program zombie ∷ []) (task_wait_any later)
task_wait_any_lem_example =
    task_wait_any_lem later (kernel ready) (shell ready ∷ program zombie ∷ []) later-IsValid refl

program_found : find_task 2 three.ring ≡ some (program ready)
unfolding find_task
program_found = refl

task_push_input_char_lem_example :
    PushOutcome three 2 (program ready) 98 (task_push_input_char 2 98 three)
task_push_input_char_lem_example =
    task_push_input_char_lem three 2 (program ready) 98 program_found
      (queue-InBounds 2 (some 0) ready)

-- A boot, the first child, the start of scheduling and a timer interrupt.
abbrev started : Tasks
started = task_init (kernel blocked) 0x100000 no_tasks

small_ids : started.next_task_id + 1 < 2 ^ 32
unfolding task_init
small_ids = omega arith

Reach-IsValid_example : IsValid (schedule (task_alloc_common (shell ready) started).1)
Reach-IsValid_example =
    Reach-IsValid
      (Reach.next (Reach.next Reach.init (Step.alloc (shell ready) small_ids)) Step.switch)
