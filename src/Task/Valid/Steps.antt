-- ===== src/Task/Valid/Steps.antt =====
-- Any sequence of operations of kernel/task.c, and the invariant that it keeps.
use kronked_os.Prelude.{ℕ, ◌+◌, ◌^◌, ◌<◌, ◌≡◌, refl, Bool, false, List, [], arith}
use kronked_os.Task.{Task, Tasks, find_task, task_unblock}
use mathlib.Core.Path.{subst}
use kronked_os.Task.Create.{
  task_init, fresh_task, task_alloc_common, assign, set_kernel, set_user, set_forked, prepare_stack,
  task_set_page_directory, task_start_scheduling,
}
use kronked_os.Task.Sched.{schedule, task_block}
use kronked_os.Task.Exit.{
  task_exit_current, task_force_terminate, Waited, sleeps, reaped, no_children, dangling,
  task_wait_specific, task_wait_any,
}
use kronked_os.Task.Input.{
  task_set_input_redirect, redirect_input, task_push_input_char, task_current_input_getchar,
}
use kronked_os.Task.Redirect.{
  redirect_output, task_set_vga_redirect, task_current_vga_mark_dirty, task_consume_vga_dirty,
}
use kronked_os.Task.Valid.{IsValid, count_id}
use kronked_os.Task.Valid.Keeps.{
  schedule-IsValid, at_task-IsValid, at_current-IsValid, task_block-IsValid, task_unblock-IsValid,
  task_exit_current-IsValid, task_force_terminate-IsValid, task_alloc_common-IsValid,
  assign-IsValid, task_wait_specific-LeavesValid, task_wait_any-LeavesValid, push_to-IsValid,
  getchar-IsValid, consume-IsValid, LeavesValid,
}

-- The state after a round of waiting, where there is one.
abbrev pub Leaves : Waited → Tasks → Type 0
Leaves (sleeps t) s' = t ≡ s'
Leaves (reaped pid code rel t) s' = t ≡ s'
Leaves no_children s' = ⊥
Leaves dangling s' = ⊥

-- The static variables before `task_init`.
abbrev pub no_tasks : Tasks
no_tasks = record {
  ring = [];
  next_task_id = 0;
  scheduling_enabled = false;
  task_count = 0;
  tss_esp0 = 0;
  cr3 = 0;
  halted = false;
}

-- One call of an operation of task.c that changes the state. A task is created in two steps, since
-- an interrupt may come between them.
pub data Step (s : Tasks) : Tasks → Type 0 where
  alloc : (old : Task) → s.next_task_id + 1 < 2 ^ 32 → Step s (task_alloc_common old s).1
  finish_kernel :
      (id trampoline entry kernel_dir stack : ℕ)
      → Step s (assign (set_kernel trampoline entry kernel_dir stack) (id, s)).1
  finish_user :
      (id trampoline dir entry top stack : ℕ)
      → Step s (assign (set_user trampoline dir entry top stack) (id, s)).1
  finish_forked :
      (id tail dir : ℕ) (frame : List ℕ) (stack : ℕ)
      → Step s (assign (set_forked tail dir frame stack) (id, s)).1
  set_directory : (id dir : ℕ) → Step s (task_set_page_directory id dir s)
  start : Step s (task_start_scheduling s)
  switch : Step s (schedule s)
  block : Step s (task_block s)
  unblock : (id : ℕ) → Step s (task_unblock id s)
  exits : (code : ℕ) → Step s (task_exit_current code s)
  terminate : (id code : ℕ) → Step s (task_force_terminate id code s)
  waits : {w : Waited} {s' : Tasks} → task_wait_any s ≡ w → Leaves w s' → Step s s'
  waits_for :
      (id : ℕ) {w : Waited} {s' : Tasks} → task_wait_specific id s ≡ w → Leaves w s' → Step s s'
  redirect_in : (id : ℕ) (enabled : Bool) → Step s (task_set_input_redirect id enabled s)
  push : (id c : ℕ) → Step s (task_push_input_char id c s).1
  get : Step s (task_current_input_getchar s).1
  redirect_out : (id buf cols rows : ℕ) → Step s (task_set_vga_redirect id buf cols rows s)
  mark_dirty : Step s (task_current_vga_mark_dirty s)
  consume_dirty : (id : ℕ) → Step s (task_consume_vga_dirty id s).1

-- `task_init` on the zeroed statics, then any steps.
pub data Reach (old : Task) (kernel_dir : ℕ) : Tasks → Type 0 where
  init : Reach old kernel_dir (task_init old kernel_dir no_tasks)
  next : {s s' : Tasks} → Reach old kernel_dir s → Step s s' → Reach old kernel_dir s'

leaves_valid : (w : Waited) (s' : Tasks) → Leaves w s' → LeavesValid w → IsValid s'
leaves_valid (sleeps t) s' e v = subst IsValid e v
leaves_valid (reaped pid code rel t) s' e v = subst IsValid e v
leaves_valid no_children s' e v = absurd e
leaves_valid dangling s' e v = absurd e

-- Every operation of task.c keeps the list free of two tasks with one id, `next_task_id` above all
-- ids, and `task_count` at the number of tasks, while fewer than 2^32 tasks have been created.
pub Step-IsValid : {s s' : Tasks} → Step s s' → IsValid s → IsValid s'
unfolding set_kernel set_user set_forked prepare_stack task_set_page_directory task_start_scheduling
    task_set_input_redirect redirect_input task_push_input_char task_set_vga_redirect
    redirect_output task_current_vga_mark_dirty
Step-IsValid (alloc old small) v = task_alloc_common-IsValid old small v
Step-IsValid {s} (finish_kernel id a b c d) v = assign-IsValid (id, s) _ (λ t. refl) v
Step-IsValid {s} (finish_user id a b c d e) v = assign-IsValid (id, s) _ (λ t. refl) v
Step-IsValid {s} (finish_forked id a b c d) v = assign-IsValid (id, s) _ (λ t. refl) v
Step-IsValid (set_directory id dir) v = at_task-IsValid id _ (λ t. refl) v
Step-IsValid start v = record { unique = v.unique; below = v.below; counted = v.counted }
Step-IsValid switch v = schedule-IsValid v
Step-IsValid block v = task_block-IsValid v
Step-IsValid (unblock id) v = task_unblock-IsValid id v
Step-IsValid (exits code) v = task_exit_current-IsValid code v
Step-IsValid (terminate id code) v = task_force_terminate-IsValid id code v
Step-IsValid {s' = s'} (waits {w} e l) v =
    leaves_valid w s' l (subst LeavesValid e (task_wait_any-LeavesValid v))
Step-IsValid {s' = s'} (waits_for id {w} e l) v =
    leaves_valid w s' l (subst LeavesValid e (task_wait_specific-LeavesValid id v))
Step-IsValid (redirect_in id enabled) v = at_task-IsValid id _ (λ t. refl) v
Step-IsValid {s} (push id c) v = push_to-IsValid (find_task id s.ring) c v
Step-IsValid get v = getchar-IsValid v
Step-IsValid (redirect_out id buf cols rows) v = at_task-IsValid id _ (λ t. refl) v
Step-IsValid mark_dirty v = at_current-IsValid _ (λ t. refl) v
Step-IsValid (consume_dirty id) v = consume-IsValid id v

init-IsValid : (old : Task) (kernel_dir : ℕ) → IsValid (task_init old kernel_dir no_tasks)
unfolding task_init fresh_task count_id
init-IsValid old kernel_dir = record {
  unique = λ i. ground arith;
  below = λ i h. ground arith;
  counted = refl;
}

-- In every state that `task_init` and any sequence of the operations of task.c reaches, fewer than
-- 2^32 tasks having been created, no two tasks of the list have one id, `next_task_id` is above all
-- ids, and `task_count` is the number of tasks.
pub Reach-IsValid : {old : Task} {dir : ℕ} {s : Tasks} → Reach old dir s → IsValid s
Reach-IsValid {old} {dir} init = init-IsValid old dir
Reach-IsValid (next r st) = Step-IsValid st (Reach-IsValid r)
