-- ===== src/Mutex/Exclusion.antt =====
-- Mutual exclusion of kernel/mutex.c, and the bound on its array of waiters.
use kronked_os.Prelude.{
  ℕ, ◌≤◌, ◌≡◌, refl, ◌≢◌, ap, ◌∙◌, sym, Bool, true, false, none, some, List, [], ◌∷◌, ◌==◌, ==_iff,
  if◌then◌else◌, update, length, length-append, arith, inl, inr, Bool-cases,
}
use kronked_os.Mutex.{
  Mutex, lock_section, mutex_try_lock, unlock_section, mutex_max_waiters, other_waiters,
}
use mathlib.Core.Bool.{true≢false}
use kronked_os.Mutex.Steps.{
  Phase, outside, trying, before_block, in_block, holding, before_unblock, System, Step, start,
  acquire, register, sleep, resume, try_acquire, release, wake, Reach, init, next,
}

-- A phase with the lock.
abbrev pub has_lock : Phase → Bool
has_lock holding = true
has_lock outside = false
has_lock trying = false
has_lock before_block = false
has_lock in_block = false
has_lock (before_unblock w) = false

-- At most one task holds the mutex, only while it is locked, and the waiters fit in the array.
pub record Safe (s : System) : Type 0 where
  pub alone : (i j : ℕ) → has_lock (s.phase i) ≡ true → has_lock (s.phase j) ≡ true → i ≡ j
  pub locked : (i : ℕ) → has_lock (s.phase i) ≡ true → s.mutex.locked ≡ true
  pub fits : length s.mutex.waiters ≤ mutex_max_waiters

other :
    (i j : ℕ) (p : Phase) (phase : ℕ → Phase)
    → has_lock p ≡ false
    → has_lock (update phase i p j) ≡ true
    → (i ≢ j) × (has_lock (phase j) ≡ true)
other i j p phase free h = elim (Bool-cases (i == j)) [
  | inl e ↦ absurd (true≢false (sym h ∙ ap (λ b. has_lock (if b then p else phase j)) e ∙ free))
  | inr e ↦ (λ k. absurd (ground arith), sym (ap (λ b. has_lock (if b then p else phase j)) e) ∙ h)
]

-- A task that moves without the lock, or gives it up.
let_go :
    (i : ℕ) (p : Phase) (s : System) (m : Mutex) (b : ℕ → Bool)
    → has_lock p ≡ false
    → Safe s
    → ((j : ℕ) → i ≢ j → has_lock (s.phase j) ≡ true → m.locked ≡ true)
    → length m.waiters ≤ mutex_max_waiters
    → Safe (record { mutex = m; phase = update s.phase i p; blocked = b })
let_go i p s m b free v kept fits = record {
  alone = λ j k hj hk. v.alone j k (other i j p s.phase free hj).1 (other i k p s.phase free hk).1;
  locked = λ j h. let (ne, h') = other i j p s.phase free h in kept j ne h';
  fits = fits;
}

only :
    (i j : ℕ) (phase : ℕ → Phase)
    → ((k : ℕ) → has_lock (phase k) ≡ false)
    → has_lock (update phase i holding j) ≡ true
    → i ≡ j
only i j phase none_holds h = elim (Bool-cases (i == j)) [
  | inl e ↦ (==_iff i j).0 e
  | inr e ↦
      absurd
        (true≢false (sym h ∙ ap (λ b. has_lock (if b then holding else phase j)) e ∙ none_holds j))
]

-- A task that takes the free lock.
taken :
    (i : ℕ) (s : System) (m : Mutex) (b : ℕ → Bool)
    → ((k : ℕ) → has_lock (s.phase k) ≡ false)
    → m.locked ≡ true
    → length m.waiters ≤ mutex_max_waiters
    → Safe (record { mutex = m; phase = update s.phase i holding; blocked = b })
taken i s m b none_holds locked fits = record {
  alone = λ j k hj hk. sym (only i j s.phase none_holds hj) ∙ only i k s.phase none_holds hk;
  locked = λ j h. locked;
  fits = fits;
}

free_of : (s : System) → Safe s → s.mutex.locked ≡ false → (k : ℕ) → has_lock (s.phase k) ≡ false
free_of s v e k = elim (Bool-cases (has_lock (s.phase k))) [
  | inl h ↦ absurd (true≢false (sym (v.locked k h) ∙ e))
  | inr h ↦ h
]

lock_section_got :
    (i : ℕ) (m : Mutex)
    → (lock_section i m).0 ≡ true
    → (m.locked ≡ false)
      × ((lock_section i m).1.locked ≡ true)
      × (length (lock_section i m).1.waiters ≡ length m.waiters)
unfolding lock_section
lock_section_got i m e = ground arith

lock_section_not :
    (i : ℕ) (m : Mutex)
    → (lock_section i m).0 ≡ false
    → length m.waiters ≤ mutex_max_waiters
    → ((lock_section i m).1.locked ≡ true)
      × (length (lock_section i m).1.waiters ≤ mutex_max_waiters)
unfolding lock_section
lock_section_not i m e fits = ground (arith, length-append m.waiters (i ∷ []))

try_got :
    (m : Mutex)
    → (mutex_try_lock m).0 ≡ true
    → (m.locked ≡ false)
      × ((mutex_try_lock m).1.locked ≡ true)
      × (length (mutex_try_lock m).1.waiters ≡ length m.waiters)
unfolding mutex_try_lock
try_got m e = ground arith

fewer : (ws : List ℕ) → length (other_waiters ws) ≤ length ws
fewer [] = omega arith
fewer (w ∷ ws) = omega arith

Step-Safe : {s s' : System} → Step s s' → Safe s → Safe s'
unfolding unlock_section
Step-Safe {s} (start i e) v =
    let_go i trying s s.mutex s.blocked refl v (λ j ne h. v.locked j h) v.fits
Step-Safe {s} (acquire i e got) v =
    let (free, locked, same) = lock_section_got i s.mutex got in
    taken i s (lock_section i s.mutex).1 s.blocked (free_of s v free) locked
      (omega (arith, same, v.fits))
Step-Safe {s} (register i e not_got) v =
    let (locked, fits) = lock_section_not i s.mutex not_got v.fits in
    let_go i before_block s (lock_section i s.mutex).1 s.blocked refl v (λ j ne h. locked) fits
Step-Safe {s} (sleep i e) v =
    let_go i in_block s s.mutex (update s.blocked i true) refl v (λ j ne h. v.locked j h) v.fits
Step-Safe {s} (resume i e b) v =
    let_go i trying s s.mutex s.blocked refl v (λ j ne h. v.locked j h) v.fits
Step-Safe {s} (try_acquire i e got) v =
    let (free, locked, same) = try_got s.mutex got in
    taken i s (mutex_try_lock s.mutex).1 s.blocked (free_of s v free) locked
      (omega (arith, same, v.fits))
Step-Safe {s} (release i e) v =
    let_go i (before_unblock (unlock_section s.mutex).0) s (unlock_section s.mutex).1 s.blocked refl
      v (λ j ne h. absurd (ne (v.alone i j (ap has_lock e) h)))
      (omega (arith, v.fits, fewer s.mutex.waiters))
Step-Safe {s} (wake i none e) v =
    let_go i outside s s.mutex s.blocked refl v (λ j ne h. v.locked j h) v.fits
Step-Safe {s} (wake i (some w) e) v =
    let_go i outside s s.mutex (update s.blocked w false) refl v (λ j ne h. v.locked j h) v.fits

-- Through any interleaving of tasks that lock, try to lock and unlock one mutex, at most one task holds
-- it, only while it is marked as locked, and at most 16 waiters are registered.
pub Reach-Safe : {s : System} → Reach s → Safe s
Reach-Safe init = record {
  alone = λ i j h k. absurd (true≢false (sym h));
  locked = λ i h. absurd (true≢false (sym h));
  fits = omega arith;
}
Reach-Safe (next r st) = Step-Safe st (Reach-Safe r)
