-- ===== src/Task/Valid/Keeps.antt =====
-- The operations of kernel/task.c and the invariant of the task list.
use kronked_os.Prelude.{
  ℕ, ◌+◌, ◌^◌, ◌<◌, ◌≡◌, refl, inl, inr, Bool, true, false, Option, none, some, List, [], ◌∷◌, leb,
  Bool-cases, arith, sym,
}
use kronked_os.Task.{
  Task, Tasks, at_task, at_current, find_task, unblock_parent, task_unblock, unblock_one, is_zombie,
}
use mathlib.Core.Path.{subst}
use kronked_os.Task.Create.{fresh_task, current_id, task_alloc_common, assign}
use kronked_os.Task.Sched.{schedule, task_block}
use kronked_os.Task.Exit.{
  die, exit_running, task_exit_current, task_force_terminate, is_current, parent_of, Waited, sleeps,
  reaped, no_children, dangling, reap, wait_for, task_wait_specific, after_scan, scan_children,
  wait_any_running, task_wait_any,
}
use kronked_os.Task.Input.{
  store_char, take_char, input_full, task_current_input_has_char, push_to,
  task_current_input_getchar,
}
use kronked_os.Task.Redirect.{dirty_of, task_consume_vga_dirty}
use kronked_os.Task.Valid.{IsValid}
use kronked_os.Task.Valid.Ids.{
  at_task-SameIds, at_current-SameIds, link_task-ids, length-link_task, unlink_task-ids,
  length-unlink_task, find_task-id, SameIds-IsValid, Turned, schedule-Turned,
}

pub Turned-IsValid : {s s' : Tasks} → Turned s s' → IsValid s → IsValid s'
Turned-IsValid t v = SameIds-IsValid t.same t.next t.count v

pub schedule-IsValid : {s : Tasks} → IsValid s → IsValid (schedule s)
schedule-IsValid {s} v = Turned-IsValid (schedule-Turned s) v

-- An assignment to fields other than the id.
pub at_task-IsValid :
    {s : Tasks} (id : ℕ) (f : Task → Task)
    → ((t : Task) → (f t).id ≡ t.id)
    → IsValid s
    → IsValid (record s { ring = at_task id f s.ring })
at_task-IsValid {s} id f h v = SameIds-IsValid (at_task-SameIds id f s.ring h) refl refl v

pub at_current-IsValid :
    {s : Tasks} (f : Task → Task)
    → ((t : Task) → (f t).id ≡ t.id)
    → IsValid s
    → IsValid (record s { ring = at_current f s.ring })
at_current-IsValid {s} f h v = SameIds-IsValid (at_current-SameIds f s.ring h) refl refl v

pub task_block-IsValid : {s : Tasks} → IsValid s → IsValid (task_block s)
unfolding task_block
task_block-IsValid v = schedule-IsValid (at_current-IsValid _ (λ t. refl) v)

pub task_unblock-IsValid : {s : Tasks} (id : ℕ) → IsValid s → IsValid (task_unblock id s)
unfolding task_unblock unblock_one
task_unblock-IsValid id v = at_task-IsValid id unblock_one (λ t. refl) v

unblock_parent-IsValid : {s : Tasks} (p : Option ℕ) → IsValid s → IsValid (unblock_parent p s)
unfolding unblock_parent
unblock_parent-IsValid none v = v
unblock_parent-IsValid (some p) v = task_unblock-IsValid p v

halt-IsValid : {s : Tasks} → IsValid s → IsValid (record s { halted = true })
halt-IsValid v = record { unique = v.unique; below = v.below; counted = v.counted }

exit_running-IsValid :
    {s : Tasks} (code : ℕ) (r : List Task)
    → s.ring ≡ r
    → IsValid s
    → IsValid (exit_running code r s)
unfolding exit_running die at_current
exit_running-IsValid code [] e v = v
exit_running-IsValid {s} code (dead ∷ ts) e v =
    let died =
      SameIds-IsValid {s' = record s { ring = die code dead ∷ ts }}
        (rw e (at_current-SameIds (die code) (dead ∷ ts) (λ t. refl))) refl refl v in
    let woke = unblock_parent-IsValid dead.parent died in
    elim (Bool-cases (leb s.task_count 1)) [
      | inl last ↦ rw last (halt-IsValid woke)
      | inr more ↦ rw more (schedule-IsValid woke)
    ]

pub task_exit_current-IsValid :
    {s : Tasks} (code : ℕ) → IsValid s → IsValid (task_exit_current code s)
unfolding task_exit_current
task_exit_current-IsValid {s} code v = exit_running-IsValid code s.ring refl v

pub task_force_terminate-IsValid :
    {s : Tasks} (id code : ℕ) → IsValid s → IsValid (task_force_terminate id code s)
unfolding task_force_terminate
task_force_terminate-IsValid {s} id code v = elim (Bool-cases (is_current id (current_id s.ring))) [
  | inl self ↦ rw self (task_exit_current-IsValid code v)
  | inr other ↦ rw other (
      unblock_parent-IsValid (parent_of (find_task id s.ring))
        (at_task-IsValid id (die code) (λ t. refl) v))
]

-- A new task takes the next id.
pub task_alloc_common-IsValid :
    {s : Tasks} (old : Task)
    → s.next_task_id + 1 < 2 ^ 32
    → IsValid s
    → IsValid (task_alloc_common old s).1
unfolding task_alloc_common fresh_task
task_alloc_common-IsValid {s} old small v =
    let t = fresh_task old s.next_task_id (current_id s.ring) in
    record {
      unique = λ i. ground (arith, link_task-ids t s.ring i, v.unique i, v.below i);
      below = λ i h. ground (arith, link_task-ids t s.ring i, v.below i (omega arith));
      counted = omega (arith, length-link_task t s.ring, v.counted);
    }

pub assign-IsValid :
    (r : ℕ × Tasks) (set : Task → Task)
    → ((t : Task) → (set t).id ≡ t.id)
    → IsValid r.1
    → IsValid (assign set r).1
unfolding assign
assign-IsValid r set h v = at_task-IsValid r.0 set h v

-- The state in which a round of waiting leaves the tasks is valid.
abbrev pub LeavesValid : Waited → Type 0
LeavesValid (sleeps s) = IsValid s
LeavesValid (reaped pid code rel s) = IsValid s
LeavesValid no_children = Unit {0}
LeavesValid dangling = Unit {0}

reap-LeavesValid :
    {s : Tasks} (id : ℕ) (c : Task)
    → find_task id s.ring ≡ some c
    → IsValid s
    → LeavesValid (reap c s)
unfolding reap
reap-LeavesValid {s} id c found v =
    let same : c.id ≡ id = find_task-id id s.ring c found in
    let found' = subst (λ k. find_task k s.ring ≡ some c) (sym same) found in
    record {
      unique = λ i. omega (arith, unlink_task-ids c.id s.ring c i found', v.unique i);
      below = λ i h. omega (arith, unlink_task-ids c.id s.ring c i found', v.below i h);
      counted = omega (arith, length-unlink_task c.id s.ring c found', v.counted);
    }

wait_for-LeavesValid :
    {s : Tasks} (id : ℕ) (o : Option Task)
    → find_task id s.ring ≡ o
    → IsValid s
    → LeavesValid (wait_for o s)
unfolding wait_for
wait_for-LeavesValid id none e v = tt
wait_for-LeavesValid {s} id (some c) e v = elim (Bool-cases (is_zombie c.state)) [
  | inl dead ↦ rw dead (reap-LeavesValid id c e v)
  | inr alive ↦ rw alive (task_block-IsValid v)
]

pub task_wait_specific-LeavesValid :
    {s : Tasks} (id : ℕ) → IsValid s → LeavesValid (task_wait_specific id s)
unfolding task_wait_specific
task_wait_specific-LeavesValid {s} id v = wait_for-LeavesValid id (find_task id s.ring) refl v

after_scan-LeavesValid :
    {s : Tasks} (r : Option Task × Bool) → IsValid s → LeavesValid (after_scan r s)
unfolding after_scan
after_scan-LeavesValid (some t, any) v = task_wait_specific-LeavesValid t.id v
after_scan-LeavesValid (none, true) v = task_block-IsValid v
after_scan-LeavesValid (none, false) v = tt

wait_any_running-LeavesValid :
    {s : Tasks} (r : List Task) → IsValid s → LeavesValid (wait_any_running r s)
unfolding wait_any_running
wait_any_running-LeavesValid [] v = tt
wait_any_running-LeavesValid (self ∷ ts) v =
    after_scan-LeavesValid (scan_children self.id false ts) v

pub task_wait_any-LeavesValid : {s : Tasks} → IsValid s → LeavesValid (task_wait_any s)
unfolding task_wait_any
task_wait_any-LeavesValid {s} v = wait_any_running-LeavesValid s.ring v

pub push_to-IsValid : {s : Tasks} (o : Option Task) (c : ℕ) → IsValid s → IsValid (push_to o c s).1
unfolding push_to store_char
push_to-IsValid none c v = v
push_to-IsValid {s} (some t) c v = elim (Bool-cases (input_full t)) [
  | inl full ↦ rw full v
  | inr room ↦
      rw room (task_unblock-IsValid t.id (at_task-IsValid t.id (store_char c) (λ u. refl) v))
]

pub getchar-IsValid : {s : Tasks} → IsValid s → IsValid (task_current_input_getchar s).1
unfolding task_current_input_getchar take_char
getchar-IsValid {s} v = elim (Bool-cases (task_current_input_has_char s)) [
  | inl some_char ↦ rw some_char (at_current-IsValid take_char (λ t. refl) v)
  | inr empty ↦ rw empty v
]

pub consume-IsValid : {s : Tasks} (id : ℕ) → IsValid s → IsValid (task_consume_vga_dirty id s).1
unfolding task_consume_vga_dirty
consume-IsValid {s} id v = elim (Bool-cases (dirty_of (find_task id s.ring))) [
  | inl dirty ↦ rw dirty (at_task-IsValid id _ (λ t. refl) v)
  | inr clean ↦ rw clean v
]
