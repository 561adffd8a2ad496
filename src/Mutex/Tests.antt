-- ===== src/Mutex/Tests.antt =====
-- The theorems on kernel/mutex.c at two tasks.
use kronked_os.Prelude.{◌≡◌, refl, true, false, arith}
use kronked_os.Mutex.{mutex_try_lock}
use kronked_os.Mutex.Steps.{System, Reach, Step, initial, holding, in_block, at, with_mutex}
use kronked_os.Mutex.Exclusion.{Safe, Reach-Safe}
use kronked_os.Mutex.Lost.{Later, lost_wakeup}

first_take : (mutex_try_lock initial.mutex).0 ≡ true
unfolding mutex_try_lock
first_take = refl

Reach-Safe_example : Safe (at 1 holding (with_mutex (mutex_try_lock initial.mutex).1 initial))
Reach-Safe_example = Reach-Safe (Reach.next Reach.init (Step.try_acquire 1 refl first_take))

lost_wakeup_example :
    (s : System) × Reach s
    × (s.mutex.locked ≡ false)
    × ((s' : System) → Later s s' → (s'.phase 2 ≡ in_block) × (s'.blocked 2 ≡ true))
lost_wakeup_example = lost_wakeup 1 2 (λ e. absurd (omega arith))
