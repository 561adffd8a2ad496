-- ===== src/Task/Exit/Waits.antt =====
-- What a round of `task_wait_any` (kernel/task.c) does, for every list of tasks.
use mathlib.Core.Path.{subst}
use kronked_os.Prelude.{
  ℕ, ◌-◌, ◌≤◌, ◌≡◌, refl, ap, ◌∙◌, ◌⊎◌, inl, inr, Bool, true, false, ◌&&◌, Option, none, some, List,
  [], ◌∷◌, ◌++◌, ◌==◌, Bool-cases, arith, sym,
}
use kronked_os.Task.{Task, Tasks, is_zombie, find_task}
use kronked_os.Task.Sched.{task_block}
use kronked_os.Task.Exit.{
  Release, address_space, frame, kernel_stack, task_struct, Waited, sleeps, reaped, no_children,
  unlink_task, releases, reap, wait_for, task_wait_specific, is_child, after_scan, scan_children,
  wait_any_running, task_wait_any,
}
use kronked_os.Task.Valid.{IsValid, count_id}
use kronked_os.Task.Valid.Ids.{count_id-append}

-- No task of the list is a child of `self`; none is a zombie child of it.
abbrev pub NoChild : ℕ → List Task → Type 0
NoChild self [] = Unit {0}
NoChild self (t ∷ ts) = (is_child self t.parent ≡ false) × NoChild self ts

abbrev pub NoZombieChild : ℕ → List Task → Type 0
NoZombieChild self [] = Unit {0}
NoZombieChild self (t ∷ ts) =
    ((is_child self t.parent && is_zombie t.state) ≡ false) × NoZombieChild self ts

-- Some task of the list is a child of `self`.
abbrev pub HasChild : ℕ → List Task → Type 0
HasChild self [] = ⊥
HasChild self (t ∷ ts) = (is_child self t.parent ≡ true) ⊎ HasChild self ts

-- `c` is the first zombie child of `self` in `ts`.
pub record FirstZombie (self : ℕ) (ts before : List Task) (c : Task) (after : List Task)
    : Type 0 where
  pub split : ts ≡ before ++ c ∷ after
  pub skipped : NoZombieChild self before
  pub child : is_child self c.parent ≡ true
  pub dead : is_zombie c.state ≡ true

-- The three outcomes of the scan.
abbrev Scan : ℕ → Bool → List Task → Option Task × Bool → Type 0
Scan self any ts r =
    ((before : List Task) × (c : Task) × (after : List Task) × FirstZombie self ts before c after
      × (r ≡ (some c, true)))
    ⊎ (NoZombieChild self ts × ((any ≡ true) ⊎ HasChild self ts) × (r ≡ (none, true)))
    ⊎ (NoChild self ts × (any ≡ false) × (r ≡ (none, false)))

skip_child :
    (self : ℕ) (any : Bool) (t : Task) (ts : List Task) (r : Option Task × Bool)
    → is_child self t.parent ≡ false
    → Scan self any ts r
    → Scan self any (t ∷ ts) r
skip_child self any t ts r e (inl (before, c, after, f, eq)) = inl (
  t ∷ before,
  c,
  after,
  record {
    split = ap (λ l. t ∷ l) f.split;
    skipped = (ground arith, f.skipped);
    child = f.child;
    dead = f.dead;
  },
  eq,
)
skip_child self any t ts r e (inr (inl (quiet, has, eq))) =
    inr (inl ((ground arith, quiet), ground arith, eq))
skip_child self any t ts r e (inr (inr (quiet, off, eq))) = inr (inr ((e, quiet), off, eq))

live_child :
    (self : ℕ) (any : Bool) (t : Task) (ts : List Task) (r : Option Task × Bool)
    → is_child self t.parent ≡ true
    → is_zombie t.state ≡ false
    → Scan self true ts r
    → Scan self any (t ∷ ts) r
live_child self any t ts r e alive (inl (before, c, after, f, eq)) = inl (
  t ∷ before,
  c,
  after,
  record {
    split = ap (λ l. t ∷ l) f.split;
    skipped = (ground arith, f.skipped);
    child = f.child;
    dead = f.dead;
  },
  eq,
)
live_child self any t ts r e alive (inr (inl (quiet, has, eq))) =
    inr (inl ((ground arith, quiet), inr (inl e), eq))
live_child self any t ts r e alive (inr (inr (quiet, off, eq))) = cc

module _ (self : ℕ) (any : Bool) (t : Task) (ts : List Task) where
  scan_other :
      is_child self t.parent ≡ false → scan_children self any (t ∷ ts) ≡ scan_children self any ts
  unfolding scan_children
  scan_other e = rw e

  scan_live :
      is_child self t.parent ≡ true
      → is_zombie t.state ≡ false
      → scan_children self any (t ∷ ts) ≡ scan_children self true ts
  unfolding scan_children
  scan_live e f = rw (e, f)

  scan_dead :
      is_child self t.parent ≡ true
      → is_zombie t.state ≡ true
      → scan_children self any (t ∷ ts) ≡ (some t, true)
  unfolding scan_children
  scan_dead e f = rw (e, f)

scan_children-Scan :
    (self : ℕ) (any : Bool) (ts : List Task) → Scan self any ts (scan_children self any ts)
unfolding scan_children
scan_children-Scan self true [] = inr (inl (tt, inl refl, refl))
scan_children-Scan self false [] = inr (inr (tt, refl, refl))
scan_children-Scan self any (t ∷ ts) = elim (Bool-cases (is_child self t.parent)) [
  | inr other ↦
      subst (Scan self any (t ∷ ts)) (sym (scan_other self any t ts other))
        (skip_child self any t ts _ other (scan_children-Scan self any ts))
  | inl child ↦ elim (Bool-cases (is_zombie t.state)) [
    | inl dead ↦ inl (
      [],
      t,
      ts,
      record { split = refl; skipped = tt; child = child; dead = dead },
      scan_dead self any t ts child dead,
    )
    | inr alive ↦
        subst (Scan self any (t ∷ ts)) (sym (scan_live self any t ts child alive))
          (live_child self any t ts _ child alive (scan_children-Scan self true ts))
  ]
]

-- Of tasks with different ids, the one with `c`'s id is `c`, and unlinking it leaves the others.
find_split :
    (before after : List Task) (c : Task)
    → count_id c.id (before ++ c ∷ after) ≤ 1
    → (find_task c.id (before ++ c ∷ after) ≡ some c)
      × (unlink_task c.id (before ++ c ∷ after) ≡ before ++ after)
unfolding find_task unlink_task count_id
find_split [] after c h = (ground arith, ground arith)
find_split (t ∷ before) after c h =
    let (found, gone) = find_split before after c (omega arith) in
    let apart : (t.id == c.id) ≡ false = ground (arith, count_id-append c.id before (c ∷ after)) in
    rw apart (found, ap (λ l. t ∷ l) gone)

-- What a dead task held: its kernel stack and its struct, and a user task its address space and
-- the frame of its directory before them.
pub record Held (c : Task) (held : List Release) : Type 0 where
  pub of_user :
      c.is_user ≡ true
      → held
        ≡ address_space c.page_directory
          ∷ frame c.page_directory
          ∷ kernel_stack (c.kernel_stack_top - 8192)
          ∷ task_struct c.id
          ∷ []
  pub of_kernel :
      c.is_user ≡ false → held ≡ kernel_stack (c.kernel_stack_top - 8192) ∷ task_struct c.id ∷ []

releases-Held : (c : Task) → Held c (releases c)
unfolding releases
releases-Held c = record { of_user = λ e. rw e refl; of_kernel = λ e. rw e refl }

-- What `task_wait_any` does with `self` running and `ts` behind it.
abbrev pub WaitOutcome : Tasks → Task → List Task → Waited → Type 0
WaitOutcome s self ts w =
    ((before : List Task) × (c : Task) × (after : List Task) × FirstZombie self.id ts before c after
      × (held : List Release) × Held c held
      × (w
          ≡ reaped c.id c.exit_code held
              (record s { ring = self ∷ before ++ after; task_count = s.task_count - 1 })))
    ⊎ (NoZombieChild self.id ts × HasChild self.id ts × (w ≡ sleeps (task_block s)))
    ⊎ (NoChild self.id ts × (w ≡ no_children))

reap_found :
    (s : Tasks) (self c : Task) (before after : List Task)
    → s.ring ≡ self ∷ before ++ c ∷ after
    → count_id c.id s.ring ≤ 1
    → is_zombie c.state ≡ true
    → task_wait_specific c.id s
      ≡ reaped c.id c.exit_code
          (releases c)
          (record s { ring = self ∷ before ++ after; task_count = s.task_count - 1 })
unfolding task_wait_specific wait_for reap
reap_found s self c before after ring unique dead =
    let (found, gone) =
      find_split (self ∷ before) after c (subst (λ l. count_id c.id l ≤ 1) ring unique) in
    let found' : find_task c.id s.ring ≡ some c = ap (find_task c.id) ring ∙ found in
    let gone' : unlink_task c.id s.ring ≡ self ∷ before ++ after =
      ap (unlink_task c.id) ring ∙ gone in
    simp (found', dead, gone')

outcome :
    (s : Tasks) (self : Task) (ts : List Task) (r : Option Task × Bool)
    → IsValid s
    → s.ring ≡ self ∷ ts
    → Scan self.id false ts r
    → WaitOutcome s self ts (after_scan r s)
unfolding after_scan
outcome s self ts r v ring (inl (before, c, after, f, eq)) = inl (
  before,
  c,
  after,
  f,
  releases c,
  releases-Held c,
  rw eq
      (reap_found s self c before after (ring ∙ ap (λ l. self ∷ l) f.split) (v.unique c.id) f.dead),
)
outcome s self ts r v ring (inr (inl (quiet, inl off, eq))) = cc
outcome s self ts r v ring (inr (inl (quiet, inr has, eq))) = inr (inl (quiet, has, rw eq))
outcome s self ts r v ring (inr (inr (quiet, off, eq))) = inr (inr (quiet, rw eq))

-- A round of `task_wait_any` in a valid state has three outcomes: the first zombie child behind the
-- running task is reaped, which returns its id and exit code, takes it alone out of the list and
-- frees what it held; or there are children and none is a zombie, and the caller sleeps; or there
-- is no child, and the call returns at once.
pub task_wait_any_lem :
    (s : Tasks) (self : Task) (ts : List Task)
    → IsValid s
    → s.ring ≡ self ∷ ts
    → WaitOutcome s self ts (task_wait_any s)
unfolding task_wait_any wait_any_running
task_wait_any_lem s self ts v ring =
    subst (λ r. WaitOutcome s self ts (wait_any_running r s)) (sym ring)
      (outcome s self ts (scan_children self.id false ts) v ring
        (scan_children-Scan self.id false ts))
