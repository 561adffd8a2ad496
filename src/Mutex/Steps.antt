-- ===== src/Mutex/Steps.antt =====
-- Tasks that use one mutex of kernel/mutex.c, as steps that a timer interrupt may come between.
use kronked_os.Prelude.{ℕ, ◌≡◌, Bool, true, false, Option, none, some, [], update}
use kronked_os.Mutex.{Mutex, lock_section, mutex_try_lock, unlock_section}

-- Where a task is: outside the mutex's functions without the lock; at the top of the loop of
-- `mutex_lock`; before its `task_block`; in it; with the lock; or before the `task_unblock` of
-- `mutex_unlock`.
pub data Phase : Type 0 where
  outside trying before_block in_block holding : Phase
  before_unblock : Option ℕ → Phase

-- `blocked` says whose state is TASK_BLOCKED.
pub record System : Type 0 where
  pub mutex : Mutex
  pub phase : ℕ → Phase
  pub blocked : ℕ → Bool

abbrev pub at : ℕ → Phase → System → System
at i p s = record s { phase = update s.phase i p }

abbrev pub with_mutex : Mutex → System → System
with_mutex m s = record s { mutex = m }

-- `task_block` and `task_unblock`, of which only the state matters here.
abbrev pub block : ℕ → System → System
block i s = record s { blocked = update s.blocked i true }

abbrev pub unblock : Option ℕ → System → System
unblock none s = s
unblock (some w) s = record s { blocked = update s.blocked w false }

pub data Step (s : System) : System → Type 0 where
  start : (i : ℕ) → s.phase i ≡ outside → Step s (at i trying s)
  acquire :
      (i : ℕ)
      → s.phase i ≡ trying
      → (lock_section i s.mutex).0 ≡ true
      → Step s (at i holding (with_mutex (lock_section i s.mutex).1 s))
  register :
      (i : ℕ)
      → s.phase i ≡ trying
      → (lock_section i s.mutex).0 ≡ false
      → Step s (at i before_block (with_mutex (lock_section i s.mutex).1 s))
  sleep : (i : ℕ) → s.phase i ≡ before_block → Step s (at i in_block (block i s))
  resume : (i : ℕ) → s.phase i ≡ in_block → s.blocked i ≡ false → Step s (at i trying s)
  try_acquire :
      (i : ℕ)
      → s.phase i ≡ outside
      → (mutex_try_lock s.mutex).0 ≡ true
      → Step s (at i holding (with_mutex (mutex_try_lock s.mutex).1 s))
  release :
      (i : ℕ)
      → s.phase i ≡ holding
      → Step s (
          at i
            (before_unblock (unlock_section s.mutex).0)
            (with_mutex (unlock_section s.mutex).1 s))
  wake : (i : ℕ) (w : Option ℕ) → s.phase i ≡ before_unblock w → Step s (at i outside (unblock w s))

abbrev pub initial : System
initial = record {
  mutex = record { locked = false; waiters = [] };
  phase = λ _. outside;
  blocked = λ _. false;
}

pub data Reach : System → Type 0 where
  init : Reach initial
  next : {s s' : System} → Reach s → Step s s' → Reach s'
