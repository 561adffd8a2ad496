-- ===== src/Task/Exit/Dies.antt =====
-- `task_exit_current` of kernel/task.c, for a task whose parent lives.
use mathlib.Core.Path.{subst}
use kronked_os.Prelude.{
  ℕ, ◌<◌, ◌≡◌, refl, ap, ◌∙◌, ◌≢◌, inl, inr, true, false, Option, some, List, [], ◌∷◌, ◌++◌, ◌==◌,
  leb, if◌then◌else◌, arith, sym,
}
use kronked_os.Task.{
  Task, Tasks, zombie, is_ready, is_zombie, find_task, at_task, unblock_one, wake, unblock_parent,
  task_unblock,
}
use kronked_os.Task.Sched.{schedule}
use kronked_os.Task.Sched.Pick.{NoneReady, FirstReady, Switched, schedule_lem}
use kronked_os.Task.Exit.{die, exit_running, task_exit_current}

-- A woken parent is READY, so the list does not hold only tasks that cannot run.
woken_ready :
    (p : ℕ) (ts : List Task) (parent : Task)
    → find_task p ts ≡ some parent
    → is_zombie parent.state ≡ false
    → ¬ (NoneReady (at_task p unblock_one ts))
unfolding find_task at_task unblock_one wake is_ready is_zombie
woken_ready p [] parent e alive none_ready = cc
woken_ready p (t ∷ ts) parent e alive none_ready = ground (arith, woken_ready p ts parent)

-- The dead task as its parent finds it: as it was, but a zombie with its exit code.
abbrev pub corpse : ℕ → Task → Task
corpse code dead = record dead { state = zombie; exit_code = code }

pub record Exited (s : Tasks) (dead : Task) (ts : List Task) (p code : ℕ) (s' : Tasks)
    : Type 0 where
  pub before : List Task
  pub next : Task
  pub after : List Task
  pub first : FirstReady (at_task p unblock_one ts) before next after
  pub ring : s'.ring ≡ next ∷ after ++ (corpse code dead ∷ before)
  pub space : s'.cr3 ≡ next.page_directory

unblock_eq :
    (o : Option ℕ) (p : ℕ) (s : Tasks)
    → o ≡ some p
    → unblock_parent o s ≡ record s { ring = at_task p unblock_one s.ring }
unfolding unblock_parent task_unblock
unblock_eq o p s e = ap (λ q. unblock_parent q s) e

not_the_dead :
    (p code : ℕ) (dead : Task) (ts : List Task)
    → p ≢ dead.id
    → at_task p unblock_one (die code dead ∷ ts) ≡ die code dead ∷ at_task p unblock_one ts
unfolding at_task die
not_the_dead p code dead ts ne =
    let apart : (dead.id == p) ≡ false = ground arith in
    ap (λ b. (if b then unblock_one (die code dead) else die code dead) ∷ at_task p unblock_one ts)
      apart

pub exit_eq :
    (s : Tasks) (dead : Task) (ts : List Task) (p code : ℕ)
    → s.ring ≡ dead ∷ ts
    → dead.parent ≡ some p
    → p ≢ dead.id
    → 1 < s.task_count
    → task_exit_current code s
      ≡ schedule (record s { ring = die code dead ∷ at_task p unblock_one ts })
unfolding task_exit_current exit_running
exit_eq s dead ts p code ring par ne many =
    let more : leb s.task_count 1 ≡ false = ground arith in
    ap (λ r. exit_running code r s) ring
    ∙ ap
        (λ b.
          if b
          then record (unblock_parent dead.parent (record s { ring = die code dead ∷ ts })) {
            halted = true;
          }
          else schedule (unblock_parent dead.parent (record s { ring = die code dead ∷ ts })))
        more
    ∙ ap schedule (unblock_eq dead.parent p (record s { ring = die code dead ∷ ts }) par)
    ∙ ap (λ r. schedule (record s { ring = r })) (not_the_dead p code dead ts ne)

exited :
    (s : Tasks) (dead : Task) (ts : List Task) (p code : ℕ) (s' : Tasks)
    → Switched
        (record s { ring = die code dead ∷ at_task p unblock_one ts })
        (die code dead)
        (at_task p unblock_one ts)
        s'
    → Exited s dead ts p code s'
unfolding die
exited s dead ts p code s' w = record {
  before = w.before;
  next = w.next;
  after = w.after;
  first = w.first;
  ring = w.ring;
  space = w.space;
}

-- A task that exits while its parent is among the tasks and not itself dead never keeps the
-- processor: `task_exit_current` wakes the parent if it is blocked, and switches to the first
-- READY task, at its page directory; the dead task stays in the circle as a zombie with its exit
-- code.
pub task_exit_current_lem :
    (s : Tasks) (dead parent : Task) (ts : List Task) (p code : ℕ)
    → s.ring ≡ dead ∷ ts
    → s.scheduling_enabled ≡ true
    → s.cr3 ≡ dead.page_directory
    → 1 < s.task_count
    → dead.parent ≡ some p
    → p ≢ dead.id
    → find_task p ts ≡ some parent
    → is_zombie parent.state ≡ false
    → Exited s dead ts p code (task_exit_current code s)
unfolding die
task_exit_current_lem s dead parent ts p code ring on space many par ne found alive =
    subst (Exited s dead ts p code) (sym (exit_eq s dead ts p code ring par ne many))
      (elim (schedule_lem (record s { ring = die code dead ∷ at_task p unblock_one ts })
        (die code dead) (at_task p unblock_one ts) on refl space) [
          | inl w ↦ exited s dead ts p code _ w
          | inr (none_ready, _) ↦ absurd (woken_ready p ts parent found alive none_ready)
        ])
