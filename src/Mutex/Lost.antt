-- ===== src/Mutex/Lost.antt =====
-- A wake-up of kernel/mutex.c that comes before the task it is for sleeps.
use mathlib.Core.Bool.{true≢false}
use kronked_os.Prelude.{
  ℕ, ◌≡◌, refl, ◌≢◌, ap, ◌∙◌, sym, Bool, true, false, ◌||◌, none, some, List, [], ◌∷◌, ◌++◌, ◌==◌,
  ==_iff, if◌then◌else◌, update, arith, inl, inr, Bool-cases,
}
use kronked_os.Mutex.{
  Mutex, lock_section, mutex_try_lock, unlock_section, first_waiter, other_waiters,
}
use kronked_os.Mutex.Steps.{
  Phase, outside, trying, before_block, in_block, holding, before_unblock, System, at, with_mutex,
  block, unblock, Step, start, acquire, register, sleep, resume, try_acquire, release, wake, Reach,
  init, next,
}

unfoldable pub is_in : ℕ → List ℕ → Bool
is_in b [] = false
is_in b (w ∷ ws) = w == b || is_in b ws

abbrev pub is_asleep : Phase → Bool
is_asleep in_block = true
is_asleep outside = false
is_asleep trying = false
is_asleep before_block = false
is_asleep holding = false
is_asleep (before_unblock w) = false

abbrev pub names : ℕ → Phase → Bool
names b outside = false
names b trying = false
names b before_block = false
names b in_block = false
names b holding = false
names b (before_unblock none) = false
names b (before_unblock (some w)) = w == b

-- The task `b` sleeps in `mutex_lock`, and nobody knows of it.
pub record Forgotten (b : ℕ) (s : System) : Type 0 where
  pub asleep : s.phase b ≡ in_block
  pub blocked : s.blocked b ≡ true
  pub unregistered : is_in b s.mutex.waiters ≡ false
  pub unannounced : (j : ℕ) → names b (s.phase j) ≡ false

other_task :
    (b i : ℕ) (s : System) → Forgotten b s → is_asleep (s.phase i) ≡ false → (i == b) ≡ false
other_task b i s f awake = elim (Bool-cases (i == b)) [
  | inl e ↦ absurd (
      true≢false (
        sym (ap is_asleep f.asleep)
        ∙ ap (λ k. is_asleep (s.phase k)) (sym ((==_iff i b).0 e))
        ∙ awake))
  | inr e ↦ e
]

-- Another task moves.
moves :
    (b i : ℕ) (p : Phase) (s : System) (m : Mutex) (blocked : ℕ → Bool)
    → Forgotten b s
    → (i == b) ≡ false
    → names b p ≡ false
    → is_in b m.waiters ≡ false
    → blocked b ≡ true
    → Forgotten b (record { mutex = m; phase = update s.phase i p; blocked = blocked })
moves b i p s m blocked f apart quiet out stays = record {
  asleep = ap (λ x. if x then p else s.phase b) apart ∙ f.asleep;
  blocked = stays;
  unregistered = out;
  unannounced = λ j. elim (Bool-cases (i == j)) [
    | inl e ↦ ap (λ x. names b (if x then p else s.phase j)) e ∙ quiet
    | inr e ↦ ap (λ x. names b (if x then p else s.phase j)) e ∙ f.unannounced j
  ];
}

is_in-append :
    (b i : ℕ) (ws : List ℕ)
    → (i == b) ≡ false
    → is_in b ws ≡ false
    → is_in b (ws ++ (i ∷ [])) ≡ false
unfolding is_in
is_in-append b i [] apart out = ground arith
is_in-append b i (w ∷ ws) apart out = ground (arith, is_in-append b i ws)

locking :
    (b i : ℕ) (m : Mutex)
    → (i == b) ≡ false
    → is_in b m.waiters ≡ false
    → is_in b (lock_section i m).1.waiters ≡ false
unfolding lock_section
locking b i m apart out = ground (arith, is_in-append b i m.waiters)

try_locking :
    (b : ℕ) (m : Mutex) → is_in b m.waiters ≡ false → is_in b (mutex_try_lock m).1.waiters ≡ false
unfolding mutex_try_lock
try_locking b m out = ground arith

announces :
    (b : ℕ) (ws : List ℕ)
    → is_in b ws ≡ false
    → (names b (before_unblock (first_waiter ws)) ≡ false) × (is_in b (other_waiters ws) ≡ false)
unfolding is_in
announces b [] out = (refl, refl)
announces b (w ∷ ws) out = ground arith

awake :
    (s : System) (i : ℕ) (p : Phase)
    → s.phase i ≡ p
    → is_asleep p ≡ false
    → is_asleep (s.phase i) ≡ false
awake s i p e k = ap is_asleep e ∙ k

Step-Forgotten : (b : ℕ) {s s' : System} → Step s s' → Forgotten b s → Forgotten b s'
unfolding unlock_section
Step-Forgotten b {s} (start i e) f =
    moves b i trying s s.mutex s.blocked f (other_task b i s f (awake s i outside e refl)) refl
      f.unregistered f.blocked
Step-Forgotten b {s} (acquire i e got) f =
    let apart = other_task b i s f (awake s i trying e refl) in
    moves b i holding s (lock_section i s.mutex).1 s.blocked f apart refl
      (locking b i s.mutex apart f.unregistered) f.blocked
Step-Forgotten b {s} (register i e got) f =
    let apart = other_task b i s f (awake s i trying e refl) in
    moves b i before_block s (lock_section i s.mutex).1 s.blocked f apart refl
      (locking b i s.mutex apart f.unregistered) f.blocked
Step-Forgotten b {s} (sleep i e) f =
    let apart = other_task b i s f (awake s i before_block e refl) in
    moves b i in_block s s.mutex (update s.blocked i true) f apart refl f.unregistered
      (ap (λ x. if x then true else s.blocked b) apart ∙ f.blocked)
Step-Forgotten b {s} (resume i e woken) f = elim (Bool-cases (i == b)) [
  | inl k ↦ absurd (true≢false (sym f.blocked ∙ ap s.blocked (sym ((==_iff i b).0 k)) ∙ woken))
  | inr apart ↦ moves b i trying s s.mutex s.blocked f apart refl f.unregistered f.blocked
]
Step-Forgotten b {s} (try_acquire i e got) f =
    moves b i holding s (mutex_try_lock s.mutex).1 s.blocked f
      (other_task b i s f (awake s i outside e refl)) refl (try_locking b s.mutex f.unregistered)
      f.blocked
Step-Forgotten b {s} (release i e) f =
    let (quiet, out) = announces b s.mutex.waiters f.unregistered in
    moves b i (before_unblock (unlock_section s.mutex).0) s (unlock_section s.mutex).1 s.blocked f
      (other_task b i s f (awake s i holding e refl)) quiet out f.blocked
Step-Forgotten b {s} (wake i none e) f =
    moves b i outside s s.mutex s.blocked f
      (other_task b i s f (awake s i (before_unblock none) e refl)) refl f.unregistered f.blocked
Step-Forgotten b {s} (wake i (some w) e) f =
    let named : (w == b) ≡ false = sym (ap (names b) e) ∙ f.unannounced i in
    moves b i outside s s.mutex (update s.blocked w false) f
      (other_task b i s f (awake s i (before_unblock (some w)) e refl)) refl f.unregistered
      (ap (λ x. if x then false else s.blocked b) named ∙ f.blocked)

-- Any number of steps.
pub data Later (s : System) : System → Type 0 where
  now : Later s s
  later : {s' s'' : System} → Later s s' → Step s' s'' → Later s s''

Later-Forgotten : (b : ℕ) {s s' : System} → Later s s' → Forgotten b s → Forgotten b s'
Later-Forgotten b now f = f
Later-Forgotten b (later l st) f = Step-Forgotten b st (Later-Forgotten b l f)

same_task : (phase : ℕ → Phase) (i : ℕ) (p : Phase) → update phase i p i ≡ p
same_task phase i p = ground arith

-- The run: `a` takes the lock; `b` fails to, is registered, and is interrupted before `task_block`; `a`
-- unlocks and unblocks `b`, which is not blocked yet; then `b` blocks.
abbrev taken : ℕ → System
taken a = record {
  mutex = record { locked = true; waiters = [] };
  phase = update (λ _. outside) a holding;
  blocked = λ _. false;
}

abbrev registered : ℕ → ℕ → System
registered a b =
    at b before_block
      (with_mutex (record { locked = true; waiters = b ∷ [] }) (at b trying (taken a)))

abbrev unlocked : ℕ → ℕ → System
unlocked a b = at a outside (
    unblock (some b) (
      at a (before_unblock (some b))
        (with_mutex (record { locked = false; waiters = [] }) (registered a b))))

abbrev asleep : ℕ → ℕ → System
asleep a b = at b in_block (block b (unlocked a b))

registered-Reach : (a b : ℕ) → a ≢ b → Reach (registered a b)
unfolding mutex_try_lock lock_section
registered-Reach a b ne =
    next (next (next init (try_acquire a refl refl)) (start b (ground arith)))
      (register b (same_task (taken a).phase b trying) refl)

asleep-Reach : (a b : ℕ) → a ≢ b → Reach (asleep a b)
unfolding unlock_section
asleep-Reach a b ne =
    next
      (next (next (registered-Reach a b ne) (release a (ground arith)))
        (wake a (some b) (same_task (registered a b).phase a (before_unblock (some b)))))
      (sleep b (ground arith))

asleep-Forgotten : (a b : ℕ) → a ≢ b → Forgotten b (asleep a b)
unfolding is_in
asleep-Forgotten a b ne = record {
  asleep = same_task (unlocked a b).phase b in_block;
  blocked = ground arith;
  unregistered = refl;
  unannounced = λ j. ground arith;
}

-- Two tasks can reach a state in which the mutex is free and one of them is asleep in `mutex_lock`, and
-- however the system goes on, that task sleeps for ever.
pub lost_wakeup :
    (a b : ℕ)
    → a ≢ b
    → (s : System) × Reach s
      × (s.mutex.locked ≡ false)
      × ((s' : System) → Later s s' → (s'.phase b ≡ in_block) × (s'.blocked b ≡ true))
lost_wakeup a b ne = (
  asleep a b,
  asleep-Reach a b ne,
  refl,
  λ s' l. let f = Later-Forgotten b l (asleep-Forgotten a b ne) in (f.asleep, f.blocked),
)
