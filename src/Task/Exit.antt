-- ===== src/Task/Exit.antt =====
-- kernel/task.c: how a task ends and how its parent waits for it. Of the loops of
-- `task_wait_specific` and `task_wait_any` these are one round, from the top of the loop to the
-- return or to the `task_block` from which the caller comes back to the top.
pub mod Dies
pub mod Waits
use kronked_os.Prelude.{
  ℕ, ◌+◌, ◌-◌, ◌≤◌, Bool, true, false, Option, none, some, List, [], ◌∷◌, ◌++◌, ◌==◌, leb,
  if◌then◌else◌,
}
use kronked_os.Task.{
  Task, Tasks, TaskState, zombie, is_zombie, at_task, at_current, find_task, unblock_parent,
}
use kronked_os.Task.Create.{stack_size, current_id}
use kronked_os.Task.Sched.{schedule, task_block}

unfoldable pub die : ℕ → Task → Task
die exit_code t = record t { state = zombie; exit_code = exit_code }

-- `halted` is the endless `cli; hlt` of the last task.
unfoldable pub exit_running : ℕ → List Task → Tasks → Tasks
unfolding die
exit_running exit_code [] s = s
exit_running exit_code (dead ∷ ts) s =
    let s' = unblock_parent dead.parent (record s { ring = die exit_code dead ∷ ts }) in
    if leb s.task_count 1 then record s' { halted = true } else schedule s'

unfoldable pub task_exit_current : ℕ → Tasks → Tasks
unfolding exit_running
task_exit_current exit_code s = exit_running exit_code s.ring s

unfoldable pub parent_of : Option Task → Option ℕ
parent_of none = none
parent_of (some t) = t.parent

unfoldable pub is_current : ℕ → Option ℕ → Bool
is_current id none = false
is_current id (some c) = id == c

unfoldable pub task_force_terminate : ℕ → ℕ → Tasks → Tasks
unfolding die parent_of is_current
task_force_terminate id exit_code s =
    if is_current id (current_id s.ring)
    then task_exit_current exit_code s
    else unblock_parent (parent_of (find_task id s.ring))
        (record s { ring = at_task id (die exit_code) s.ring })

-- What the reaper gives back: a whole address space, a frame, a kernel stack, a task struct.
pub data Release : Type 0 where
  address_space : ℕ → Release
  frame : ℕ → Release
  kernel_stack : ℕ → Release
  task_struct : ℕ → Release

-- `dangling` is a read through a pointer to no task.
pub data Waited : Type 0 where
  sleeps : Tasks → Waited
  reaped : (pid code : ℕ) → List Release → Tasks → Waited
  no_children : Waited
  dangling : Waited

-- `child->prev->next = child->next; child->next->prev = child->prev`
unfoldable pub unlink_task : ℕ → List Task → List Task
unlink_task id [] = []
unlink_task id (t ∷ ts) = if t.id == id then ts else t ∷ unlink_task id ts

unfoldable pub releases : Task → List Release
releases c =
    (if c.is_user then address_space c.page_directory ∷ frame c.page_directory ∷ [] else [])
    ++ kernel_stack (c.kernel_stack_top - stack_size) ∷ task_struct c.id ∷ []

-- `task_wait_specific` behind its loop.
unfoldable pub reap : Task → Tasks → Waited
unfolding releases
reap c s =
    reaped c.id c.exit_code (releases c)
      (record s { ring = unlink_task c.id s.ring; task_count = s.task_count - 1 })

unfoldable pub wait_for : Option Task → Tasks → Waited
unfolding reap
wait_for none s = dangling
wait_for (some c) s = if is_zombie c.state then reap c s else sleeps (task_block s)

unfoldable pub task_wait_specific : ℕ → Tasks → Waited
unfolding wait_for
task_wait_specific id s = wait_for (find_task id s.ring) s

unfoldable pub is_child : ℕ → Option ℕ → Bool
is_child self none = false
is_child self (some p) = p == self

-- The scan of `task_wait_any`: the first zombie child, and whether there was any child up to it.
unfoldable pub scan_children : ℕ → Bool → List Task → Option Task × Bool
scan_children self any [] = (none, any)
scan_children self any (t ∷ ts) =
    let child = is_child self t.parent in
    let rest = scan_children self (if child then true else any) ts in
    if child then (if is_zombie t.state then (some t, true) else rest) else rest

unfoldable pub after_scan : Option Task × Bool → Tasks → Waited
after_scan (some t, any) s = task_wait_specific t.id s
after_scan (none, true) s = sleeps (task_block s)
after_scan (none, false) s = no_children

unfoldable pub wait_any_running : List Task → Tasks → Waited
wait_any_running [] s = dangling
wait_any_running (self ∷ ts) s = after_scan (scan_children self.id false ts) s

unfoldable pub task_wait_any : Tasks → Waited
unfolding is_child scan_children after_scan wait_any_running
task_wait_any s = wait_any_running s.ring s
