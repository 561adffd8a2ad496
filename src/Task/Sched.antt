-- ===== src/Task/Sched.antt =====
-- kernel/task.c: `schedule`, `yield` and `task_block`.
pub mod Pick
pub mod Fair
use kronked_os.Prelude.{
  ℕ, zero, suc, ◌≡◌, Bool, true, false, Option, none, some, List, [], ◌∷◌, ◌++◌, if◌then◌else◌,
  ◌==◌, not,
}
use kronked_os.Task.{Task, Tasks, blocked, is_ready, at_current}

-- The `while` of `schedule`: the tasks behind the running one are tried in turn; `passed` are those
-- already skipped. A READY one becomes the head of the list, read round from there; `none` is the
-- return to the running task.
unfoldable pub find_ready : Task → List Task → List Task → Option (List Task)
find_ready prev passed [] = none
find_ready prev passed (t ∷ ts) =
    let rest = find_ready prev (passed ++ t ∷ []) ts in
    if is_ready t.state then some (t ∷ ts ++ (prev ∷ passed)) else rest

unfoldable pub switch_to : Task → List Task → Tasks → Tasks
switch_to prev [] s = s
switch_to prev (next ∷ ts) s = record s {
  ring = next ∷ ts;
  tss_esp0 = next.kernel_stack_top;
  cr3 = if not (next.page_directory == prev.page_directory) then next.page_directory else s.cr3;
}

unfoldable pub switch_found : Task → Option (List Task) → Tasks → Tasks
switch_found prev none s = s
switch_found prev (some ring) s = switch_to prev ring s

unfoldable pub schedule_ring : List Task → Tasks → Tasks
schedule_ring [] s = s
schedule_ring (prev ∷ ts) s = switch_found prev (find_ready prev [] ts) s

unfoldable pub schedule : Tasks → Tasks
unfolding find_ready switch_to switch_found schedule_ring
schedule s = if s.scheduling_enabled then schedule_ring s.ring s else s

unfoldable pub task_block : Tasks → Tasks
task_block s = schedule (record s { ring = at_current (λ t. record t { state = blocked }) s.ring })
