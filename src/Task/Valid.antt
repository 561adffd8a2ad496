-- ===== src/Task/Valid.antt =====
-- The invariant of kernel/task.c: no two tasks of the list share an id, `next_task_id` is above them
-- all, and `task_count` counts them.
pub mod Ids
pub mod Keeps
pub mod Steps
use kronked_os.Prelude.{
  ℕ, zero, suc, ◌+◌, ◌-◌, ◌<◌, ◌≤◌, ◌≡◌, refl, true, false, List, [], ◌∷◌, ◌++◌, ◌==◌,
  if◌then◌else◌, length, arith,
}
use kronked_os.Task.{Task, Tasks}

-- How many tasks of the list have the id.
unfoldable pub count_id : ℕ → List Task → ℕ
count_id i [] = 0
count_id i (t ∷ ts) = (if t.id == i then 1 else 0) + count_id i ts

pub record IsValid (s : Tasks) : Type 0 where
  pub unique : (i : ℕ) → count_id i s.ring ≤ 1
  pub below : (i : ℕ) → s.next_task_id ≤ i → count_id i s.ring ≡ 0
  pub counted : s.task_count ≡ length s.ring
