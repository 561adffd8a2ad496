-- ===== src/Mutex.antt =====
-- kernel/spinlock.c and kernel/mutex.c: the sections that the mutex's guard makes atomic, and the tasks
-- that go through them.
pub mod Steps
pub mod Exclusion
pub mod Lost
mod Tests
use kronked_os.Prelude.{
  ℕ, ◌+◌, Bool, true, false, not, Option, none, some, List, [], ◌∷◌, ◌++◌, ltb, if◌then◌else◌,
  length,
}
use kronked_os.Prelude.Bits.{has_bit}

-- `spinlock_t`, and the interrupt flag of the processor that runs the code (EFLAGS.IF, bit 9).
pub record Processor : Type 0 where
  pub locked : Bool
  pub eflags : ℕ
  pub interrupts : Bool

unfoldable pub spinlock_init : Processor → Processor
spinlock_init p = record p { locked = false }

-- With interrupts off nothing else runs on the one processor: a lock that is held is never released,
-- and `none` is that loop.
unfoldable pub spinlock_acquire : Processor → Option (ℕ × Processor)
spinlock_acquire p =
    if p.locked then none else some (p.eflags, record p { locked = true; interrupts = false })

unfoldable pub spinlock_release : ℕ → Processor → Processor
spinlock_release saved_eflags p = record p {
  locked = false;
  interrupts = if has_bit saved_eflags 9 then true else p.interrupts;
}

-- `MUTEX_MAX_WAITERS`
abbrev pub mutex_max_waiters : ℕ
mutex_max_waiters = 16

-- `mutex_t` without its guard: the waiters are the ids of tasks, the first `waiter_count` of the array.
pub record Mutex : Type 0 where
  pub locked : Bool
  pub waiters : List ℕ

unfoldable pub mutex_init : Mutex → Mutex
mutex_init m = record m { locked = false; waiters = [] }

-- The guarded section of one round of `mutex_lock` by the task `me`: whether it got the lock. If not,
-- it is registered while there is room.
unfoldable pub lock_section : ℕ → Mutex → Bool × Mutex
lock_section me m = if not m.locked then (true, record m { locked = true }) else (
  false,
  if ltb (length m.waiters) mutex_max_waiters
      then record m { waiters = m.waiters ++ (me ∷ []) }
      else m,
)

unfoldable pub mutex_try_lock : Mutex → Bool × Mutex
mutex_try_lock m = if not m.locked then (true, record m { locked = true }) else (false, m)

abbrev pub first_waiter : List ℕ → Option ℕ
first_waiter [] = none
first_waiter (w ∷ ws) = some w

abbrev pub other_waiters : List ℕ → List ℕ
other_waiters [] = []
other_waiters (w ∷ ws) = ws

-- The guarded section of `mutex_unlock`: the task to wake.
unfoldable pub unlock_section : Mutex → Option ℕ × Mutex
unlock_section m =
    (first_waiter m.waiters, record m { locked = false; waiters = other_waiters m.waiters })
