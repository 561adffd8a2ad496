-- ===== src/Timer.antt =====
-- kernel/timer.c: the tick counter, and the switch of tasks that every tick makes.
use kronked_os.Prelude.{ℕ, zero, suc, ◌+◌, ◌/◌, ◌%◌, ◌^◌, List, [], ◌∷◌, ◌==◌, if◌then◌else◌}
use kronked_os.Prelude.Text.{text}
use kronked_os.Serial.{serial_write}
use kronked_os.Task.Sched.{schedule}
use kronked_os.Machine.{Machine, with_tasks}

-- The digits that the loop of `timer_callback` writes in front of the end of its buffer; a 32-bit
-- number has at most ten.
unfoldable pub tick_digits : ℕ → ℕ → List ℕ → List ℕ
tick_digits zero n buf = buf
tick_digits (suc i) n buf =
    let rest = tick_digits i (n / 10) ((48 + n % 10) ∷ buf) in if n == 0 then buf else rest

unfoldable pub tick_text : ℕ → List ℕ
unfolding tick_digits
tick_text n = if n == 0 then 48 ∷ [] else tick_digits 10 n []

unfoldable pub heartbeat : ℕ → List ℕ → List ℕ
unfolding tick_text
heartbeat tick sent =
    if tick % 100 == 0
    then serial_write (text "\n")
        (serial_write (tick_text tick) (serial_write (text "[serial] timer tick: ") sent))
    else sent

unfoldable pub timer_callback : Machine → Machine
unfolding heartbeat
timer_callback m =
    let tick = (m.tick + 1) % 2 ^ 32 in
    with_tasks (schedule m.tasks)
      (record m { tick = tick; vga = record (m.vga) { serial = heartbeat tick m.vga.serial } })

-- The bytes that `timer_init` writes, with their ports.
unfoldable pub timer_init : ℕ → List (ℕ × ℕ)
timer_init freq_hz =
    let divisor = 1193180 / freq_hz in
    (0x43, 0x36) ∷ (0x40, divisor % 256) ∷ (0x40, divisor / 256 % 256) ∷ []

unfoldable pub timer_ticks : Machine → ℕ
timer_ticks m = m.tick
