-- ===== src/Task/Valid/Ids.antt =====
-- What the list operations of kernel/task.c do to the ids in the list.
use kronked_os.Prelude.{
  ℕ, suc, ◌+◌, ◌≡◌, refl, ap, inl, inr, Option, some, List, [], ◌∷◌, ◌++◌, ◌==◌, if◌then◌else◌,
  Bool-cases, length, length-append, arith,
}
use kronked_os.Task.{Task, Tasks, at_task, at_current, find_task}
use kronked_os.Task.Create.{link_task}
use kronked_os.Task.Exit.{unlink_task}
use kronked_os.Task.Valid.{IsValid, count_id}
use kronked_os.Task.Sched.{schedule, schedule_ring, switch_found, switch_to}
use kronked_os.Task.Sched.Pick.{Found, find_ready-Found}

pub count_id-append :
    (i : ℕ) (xs ys : List Task) → count_id i (xs ++ ys) ≡ count_id i xs + count_id i ys
unfolding count_id
count_id-append i [] ys = omega arith
count_id-append i (x ∷ xs) ys = omega (arith, count_id-append i xs ys)

-- Two lists with the same ids and length.
pub record SameIds (xs ys : List Task) : Type 0 where
  pub ids : (i : ℕ) → count_id i xs ≡ count_id i ys
  pub len : length xs ≡ length ys

pub at_task-SameIds :
    (id : ℕ) (f : Task → Task) (ts : List Task)
    → ((t : Task) → (f t).id ≡ t.id)
    → SameIds (at_task id f ts) ts
unfolding at_task count_id
at_task-SameIds id f [] h = record { ids = λ i. refl; len = refl }
at_task-SameIds id f (t ∷ ts) h =
    let rest = at_task-SameIds id f ts h in
    record { ids = λ i. ground (arith, h t, rest.ids i); len = ap suc rest.len }

pub at_current-SameIds :
    (f : Task → Task) (ts : List Task)
    → ((t : Task) → (f t).id ≡ t.id)
    → SameIds (at_current f ts) ts
unfolding at_current count_id
at_current-SameIds f [] h = record { ids = λ i. refl; len = refl }
at_current-SameIds f (t ∷ ts) h = record { ids = λ i. ground (arith, h t); len = refl }

-- The switch of `schedule` turns the circle.
pub turn-SameIds :
    (prev next : Task) (before after : List Task)
    → SameIds (next ∷ after ++ (prev ∷ before)) (prev ∷ before ++ next ∷ after)
unfolding count_id
turn-SameIds prev next before after = record {
  ids = λ i.
      omega
        (arith, count_id-append i after (prev ∷ before), count_id-append i before (next ∷ after));
  len =
      omega
        (arith, length-append {0} after (prev ∷ before), length-append {0} before (next ∷ after));
}

pub link_task-ids :
    (t : Task) (ts : List Task) (i : ℕ)
    → count_id i (link_task t ts) ≡ (if t.id == i then 1 else 0) + count_id i ts
unfolding link_task count_id
link_task-ids t [] i = refl
link_task-ids t (c ∷ ts) i = omega arith

pub length-link_task : (t : Task) (ts : List Task) → length (link_task t ts) ≡ length ts + 1
unfolding link_task
length-link_task t [] = refl
length-link_task t (c ∷ ts) = omega arith

-- Unlinking a task that is in the list takes one id away.
pub unlink_task-ids :
    (id : ℕ) (ts : List Task) (c : Task) (i : ℕ)
    → find_task id ts ≡ some c
    → count_id i (unlink_task id ts) + (if id == i then 1 else 0) ≡ count_id i ts
unfolding find_task unlink_task count_id
unlink_task-ids id [] c i e = cc
unlink_task-ids id (t ∷ ts) c i e = ground (arith, unlink_task-ids id ts c i)

pub length-unlink_task :
    (id : ℕ) (ts : List Task) (c : Task)
    → find_task id ts ≡ some c
    → length (unlink_task id ts) + 1 ≡ length ts
unfolding find_task unlink_task
length-unlink_task id [] c e = cc
length-unlink_task id (t ∷ ts) c e = ground (arith, length-unlink_task id ts c)

-- A task found by its id has it.
pub find_task-id : (id : ℕ) (ts : List Task) (c : Task) → find_task id ts ≡ some c → c.id ≡ id
unfolding find_task
find_task-id id [] c e = cc
find_task-id id (t ∷ ts) c e = ground (arith, find_task-id id ts c)

-- A state with another list of the same ids.
pub SameIds-IsValid :
    {s s' : Tasks}
    → SameIds s'.ring s.ring
    → s'.next_task_id ≡ s.next_task_id
    → s'.task_count ≡ s.task_count
    → IsValid s
    → IsValid s'
SameIds-IsValid same next count v = record {
  unique = λ i. omega (arith, same.ids i, v.unique i);
  below = λ i h. omega (arith, same.ids i, v.below i (omega arith));
  counted = omega (arith, same.len, v.counted);
}

-- What `schedule` leaves of the state.
pub record Turned (s s' : Tasks) : Type 0 where
  pub same : SameIds s'.ring s.ring
  pub next : s'.next_task_id ≡ s.next_task_id
  pub count : s'.task_count ≡ s.task_count

refl-Turned : (s : Tasks) → Turned s s
refl-Turned s = record { same = record { ids = λ i. refl; len = refl }; next = refl; count = refl }

switch_found-Turned :
    (s : Tasks) (prev : Task) (ts : List Task) {r : Option (List Task)}
    → s.ring ≡ prev ∷ ts
    → Found prev [] ts r
    → Turned s (switch_found prev r s)
unfolding switch_found switch_to
switch_found-Turned s prev ts ring (inl (before, next, after, f, eq)) =
    rw eq (record { same = turned; next = refl; count = refl })
  where
    turned : SameIds (next ∷ after ++ (prev ∷ before)) s.ring
    turned = rw (ring, f.split) (turn-SameIds prev next before after)
switch_found-Turned s prev ts ring (inr (none_ready, eq)) = rw eq (refl-Turned s)

ring_cases-Turned : (s : Tasks) (r : List Task) → s.ring ≡ r → Turned s (schedule_ring r s)
unfolding schedule_ring
ring_cases-Turned s [] e = refl-Turned s
ring_cases-Turned s (prev ∷ ts) e = switch_found-Turned s prev ts e (find_ready-Found prev [] ts)

pub schedule-Turned : (s : Tasks) → Turned s (schedule s)
unfolding schedule
schedule-Turned s = elim (Bool-cases s.scheduling_enabled) [
  | inl on ↦ ground (arith, on, ring_cases-Turned s s.ring refl)
  | inr off ↦ ground (arith, off, refl-Turned s)
]
