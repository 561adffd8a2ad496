-- ===== src/Task/Sched/Fair.antt =====
-- Round-robin fairness of `schedule` of kernel/task.c.
use mathlib.Core.List.{append_assoc}
use kronked_os.Prelude.{
  ℕ, zero, suc, ◌+◌, ◌<◌, ◌≤◌, ◌≡◌, refl, ◌⊎◌, inl, inr, true, Option, none, some, List, [], ◌∷◌,
  ◌++◌, arith, ap, Bool-cases, length, ◌∙◌,
}
use kronked_os.Task.{Task, Tasks, is_ready}
use kronked_os.Task.Sched.{find_ready, switch_to, switch_found, schedule}
use kronked_os.Task.Sched.Pick.{find_ready_take, find_ready_skip, schedule_found}

-- `n` calls in a row.
unfoldable pub schedules : ℕ → Tasks → Tasks
schedules zero s = s
schedules (suc n) s = schedules n (schedule s)

unfoldable pub current_task : List Task → Option Task
current_task [] = none
current_task (t ∷ ts) = some t

-- With a READY task behind `xs`, the next task is that one, or one of `xs` with fewer tasks
-- between.
abbrev Nearer : Task → List Task → Option (List Task) → Type 0
Nearer t xs r =
    ((x : Task) × (a : List Task) × (rest : List Task) × (length a < length xs)
      × (r ≡ some (x ∷ a ++ t ∷ rest)))
    ⊎ ((rest : List Task) × (r ≡ some (t ∷ rest)))

one_more :
    (t : Task) (xs : List Task) (x : Task) {r : Option (List Task)}
    → Nearer t xs r
    → Nearer t (x ∷ xs) r
one_more t xs x (inl (y, a, rest, lt, e)) = inl (y, a, rest, omega arith, e)
one_more t xs x (inr (rest, e)) = inr (rest, e)

find_ready-Nearer :
    (prev t : Task) (passed xs ys : List Task)
    → is_ready t.state ≡ true
    → Nearer t xs (find_ready prev passed (xs ++ t ∷ ys))
find_ready-Nearer prev t passed [] ys go =
    inr (ys ++ (prev ∷ passed), find_ready_take prev t passed ys go)
find_ready-Nearer prev t passed (x ∷ xs) ys go = elim (Bool-cases (is_ready x.state)) [
  | inl now ↦ inl (
    x,
    xs,
    ys ++ (prev ∷ passed),
    omega arith,
    find_ready_take prev x passed (xs ++ t ∷ ys) now
        ∙ ap (λ l. some (x ∷ l)) (append_assoc xs (t ∷ ys) (prev ∷ passed)),
  )
  | inr skip ↦
      rw (find_ready_skip prev x passed (xs ++ t ∷ ys) skip)
        (one_more t xs x (find_ready-Nearer prev t (passed ++ x ∷ []) xs ys go))
]

-- After one call.
abbrev Advanced : Task → List Task → Tasks → Type 0
Advanced t xs s' =
    (s'.scheduling_enabled ≡ true)
    × (((x : Task) × (a : List Task) × (rest : List Task) × (length a < length xs)
          × (s'.ring ≡ x ∷ a ++ t ∷ rest))
        ⊎ ((rest : List Task) × (s'.ring ≡ t ∷ rest)))

advance :
    (s : Tasks) (prev t : Task) (xs : List Task) {r : Option (List Task)}
    → s.scheduling_enabled ≡ true
    → Nearer t xs r
    → Advanced t xs (switch_found prev r s)
unfolding switch_found switch_to
advance s prev t xs on (inl (x, a, rest, lt, e)) = rw e (on, inl (x, a, rest, lt, refl))
advance s prev t xs on (inr (rest, e)) = rw e (on, inr (rest, refl))

schedule-Advanced :
    (s : Tasks) (prev t : Task) (xs ys : List Task)
    → s.scheduling_enabled ≡ true
    → s.ring ≡ prev ∷ xs ++ t ∷ ys
    → is_ready t.state ≡ true
    → Advanced t xs (schedule s)
schedule-Advanced s prev t xs ys on ring go =
    rw (schedule_found s prev (xs ++ t ∷ ys) on ring)
      (advance s prev t xs on (find_ready-Nearer prev t [] xs ys go))

abbrev RunsWithin : ℕ → Task → Tasks → Type 0
RunsWithin m t s = (n : ℕ) × (n ≤ m) × (current_task (schedules n s).ring ≡ some t)

later : (m k : ℕ) (t : Task) (s : Tasks) → k < m → RunsWithin k t (schedule s) → RunsWithin m t s
unfolding schedules
later m k t s lt (n, le, e) = (suc n, omega arith, e)

step :
    (m : ℕ) (s : Tasks) (t : Task) (xs : List Task)
    → length xs < suc m
    → is_ready t.state ≡ true
    → ((s' : Tasks) (prev : Task) (a ys : List Task)
        → length a < m
        → s'.scheduling_enabled ≡ true
        → s'.ring ≡ prev ∷ a ++ t ∷ ys
        → RunsWithin m t s')
    → Advanced t xs (schedule s)
    → RunsWithin (suc m) t s
unfolding schedules current_task
step m s t xs lt go rec (on, inl (x, a, rest, lt', e)) =
    later (suc m) m t s (omega arith) (rec (schedule s) x a rest (omega arith) on e)
step m s t xs lt go rec (on, inr (rest, e)) = (1, omega arith, ap current_task e)

fair_within :
    (m : ℕ) (s : Tasks) (prev t : Task) (xs ys : List Task)
    → length xs < m
    → s.scheduling_enabled ≡ true
    → s.ring ≡ prev ∷ xs ++ t ∷ ys
    → is_ready t.state ≡ true
    → RunsWithin m t s
fair_within zero s prev t xs ys lt on ring go = absurd (omega arith)
fair_within (suc m) s prev t xs ys lt on ring go =
    step m s t xs lt go (λ s' p a r lt' on' e. fair_within m s' p t a r lt' on' e go)
      (schedule-Advanced s prev t xs ys on ring go)

-- With scheduling on, a READY task waits for at most as many calls of `schedule` as there are tasks from the running
-- one up to it: while only `schedule` is called, it is the running task after that many or fewer.
pub round_robin :
    (s : Tasks) (prev t : Task) (xs ys : List Task)
    → s.scheduling_enabled ≡ true
    → s.ring ≡ prev ∷ xs ++ t ∷ ys
    → is_ready t.state ≡ true
    → (n : ℕ) × (n ≤ length xs + 1) × (current_task (schedules n s).ring ≡ some t)
round_robin s prev t xs ys on ring go =
    fair_within (length xs + 1) s prev t xs ys (omega arith) on ring go
