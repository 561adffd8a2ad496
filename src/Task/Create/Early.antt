-- ===== src/Task/Create/Early.antt =====
-- The moment between the two halves of task creation in kernel/task.c.
use kronked_os.Prelude.{◌≡◌, refl, ap, ◌∙◌, true, some, List, [], ◌∷◌}
use kronked_os.Task.{Task, Tasks, is_ready}
use kronked_os.Task.Create.{fresh_task, link_task, current_id, task_alloc_common}
use kronked_os.Task.Sched.{schedule, switch_found, switch_to}
use kronked_os.Task.Sched.Pick.{schedule_found, find_ready_take}
use kronked_os.Task.Sched.Fair.{current_task}

-- With scheduling on, a timer interrupt between `task_alloc_common` and its caller's assignments runs the new task at
-- once, with the stack pointer that happened to be in the block that `kmalloc` returned.
pub early_switch :
    (old : Task) (s : Tasks) (c : Task) (ts : List Task)
    → s.scheduling_enabled ≡ true
    → s.ring ≡ c ∷ ts
    → (t : Task) × (current_task (schedule (task_alloc_common old s).1).ring ≡ some t)
      × (t.id ≡ s.next_task_id)
      × (t.esp ≡ old.esp)
      × (t.kernel_stack_top ≡ old.kernel_stack_top)
unfolding task_alloc_common fresh_task link_task switch_found switch_to current_task is_ready
early_switch old s c ts on ring =
    let t = fresh_task old s.next_task_id (some c.id) in
    (
      t,
      ap (λ r. current_task r.ring)
          (schedule_found (task_alloc_common old s).1 c (t ∷ ts) on (ap linked ring)
            ∙ ap (λ r. switch_found c r (task_alloc_common old s).1)
                (find_ready_take c t [] ts refl)),
      refl,
      refl,
      refl,
    )
  where
    linked : List Task → List Task
    linked r = link_task (fresh_task old s.next_task_id (current_id r)) r
