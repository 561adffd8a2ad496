-- ===== src/Task/Sched/Pick.antt =====
-- Which task `schedule` of kernel/task.c runs next.
use mathlib.Core.List.{append_assoc, append-nil}
use kronked_os.Prelude.{
  ◌≡◌, refl, ◌⊎◌, inl, inr, true, false, Option, none, some, List, [], ◌∷◌, ◌++◌, arith, ap,
  Bool-cases, ◌∙◌, sym,
}
use kronked_os.Task.{Task, Tasks, is_ready}
use kronked_os.Task.Sched.{find_ready, switch_to, switch_found, schedule_ring, schedule}

abbrev pub NoneReady : List Task → Type 0
NoneReady [] = Unit {0}
NoneReady (t ∷ ts) = (is_ready t.state ≡ false) × NoneReady ts

-- `next` is the first READY task of `ts`, with `before` in front of it and `after` behind it.
pub record FirstReady (ts before : List Task) (next : Task) (after : List Task) : Type 0 where
  pub split : ts ≡ before ++ next ∷ after
  pub skipped : NoneReady before
  pub runs : is_ready next.state ≡ true

abbrev pub Found : Task → List Task → List Task → Option (List Task) → Type 0
Found prev passed ts r =
    ((before : List Task) × (next : Task) × (after : List Task) × FirstReady ts before next after
      × (r ≡ some (next ∷ after ++ (prev ∷ passed ++ before))))
    ⊎ (NoneReady ts × (r ≡ none))

further :
    (prev t : Task) (passed ts : List Task) {r r' : Option (List Task)}
    → is_ready t.state ≡ false
    → r' ≡ r
    → Found prev (passed ++ t ∷ []) ts r
    → Found prev passed (t ∷ ts) r'
further prev t passed ts e same (inl (before, next, after, f, eq)) = inl (
  t ∷ before,
  next,
  after,
  record { split = ap (λ l. t ∷ l) f.split; skipped = (e, f.skipped); runs = f.runs },
  same ∙ eq ∙ ap (λ l. some (next ∷ after ++ (prev ∷ l))) (append_assoc passed (t ∷ []) before),
)
further prev t passed ts e same (inr (none_ready, eq)) = inr ((e, none_ready), same ∙ eq)

pub find_ready_take :
    (prev t : Task) (passed ts : List Task)
    → is_ready t.state ≡ true
    → find_ready prev passed (t ∷ ts) ≡ some (t ∷ ts ++ (prev ∷ passed))
unfolding find_ready
find_ready_take prev t passed ts go = rw go

pub find_ready_skip :
    (prev t : Task) (passed ts : List Task)
    → is_ready t.state ≡ false
    → find_ready prev passed (t ∷ ts) ≡ find_ready prev (passed ++ t ∷ []) ts
unfolding find_ready
find_ready_skip prev t passed ts skip = rw skip

pub find_ready-Found :
    (prev : Task) (passed ts : List Task) → Found prev passed ts (find_ready prev passed ts)
unfolding find_ready
find_ready-Found prev passed [] = inr (tt, refl)
find_ready-Found prev passed (t ∷ ts) = elim (Bool-cases (is_ready t.state)) [
  | inl go ↦ inl (
    [],
    t,
    ts,
    record { split = refl; skipped = tt; runs = go },
    find_ready_take prev t passed ts go
        ∙ ap (λ l. some (t ∷ ts ++ (prev ∷ l))) (sym (append-nil passed)),
  )
  | inr skip ↦
      further prev t passed ts skip (find_ready_skip prev t passed ts skip)
        (find_ready-Found prev (passed ++ t ∷ []) ts)
]

-- A switch from `prev`, with `ts` behind it, to the first READY one of them.
pub record Switched (s : Tasks) (prev : Task) (ts : List Task) (s' : Tasks) : Type 0 where
  pub before : List Task
  pub next : Task
  pub after : List Task
  pub first : FirstReady ts before next after
  pub ring : s'.ring ≡ next ∷ after ++ (prev ∷ before)
  pub space : s'.cr3 ≡ next.page_directory
  pub stack : s'.tss_esp0 ≡ next.kernel_stack_top
  pub same_count : s'.task_count ≡ s.task_count

switch_found_lem :
    (s : Tasks) (prev : Task) (ts : List Task) {r : Option (List Task)}
    → s.cr3 ≡ prev.page_directory
    → Found prev [] ts r
    → Switched s prev ts (switch_found prev r s) ⊎ (NoneReady ts × (switch_found prev r s ≡ s))
unfolding switch_found switch_to
switch_found_lem s prev ts space (inl (before, next, after, f, eq)) = rw eq (
    inl (record {
      before = before;
      next = next;
      after = after;
      first = f;
      ring = refl;
      space = ground arith;
      stack = refl;
      same_count = refl;
    }))
switch_found_lem s prev ts space (inr (none_ready, eq)) = rw eq (inr (none_ready, refl))

pub schedule_found :
    (s : Tasks) (prev : Task) (ts : List Task)
    → s.scheduling_enabled ≡ true
    → s.ring ≡ prev ∷ ts
    → schedule s ≡ switch_found prev (find_ready prev [] ts) s
unfolding schedule schedule_ring
schedule_found s prev ts on ring = simp (on, ring)

-- With scheduling on and CR3 at the running task's page directory, `schedule` either runs the next
-- task of the circle that is READY, at whose page directory and kernel stack CR3 and the TSS then
-- are, the circle being only turned, or no other task is READY and nothing changes.
pub schedule_lem :
    (s : Tasks) (prev : Task) (ts : List Task)
    → s.scheduling_enabled ≡ true
    → s.ring ≡ prev ∷ ts
    → s.cr3 ≡ prev.page_directory
    → Switched s prev ts (schedule s) ⊎ (NoneReady ts × (schedule s ≡ s))
schedule_lem s prev ts on ring space =
    rw (schedule_found s prev ts on ring)
      (switch_found_lem s prev ts space (find_ready-Found prev [] ts))
