-- ===== src/Keyboard/Tests.antt =====
-- The theorems on kernel/keyboard.c at an empty buffer.
use kronked_os.Prelude.{ℕ, ◌+◌, ◌≤◌, ◌≡◌, refl, false, List, [], ◌∷◌, ◌++◌, length, arith}
use kronked_os.Ring.{contents, span, count}
use kronked_os.Task.Valid.Steps.{no_tasks}
use kronked_os.Task.Input.{task_current_uses_input_redirect, uses_redirect}
use kronked_os.Keyboard.{Keyboard, key_char}
use kronked_os.Keyboard.Buffer.{typed, InBounds}
use kronked_os.Keyboard.Decode.{emits, shift_after, decode, run_codes, run_codes-decode}

abbrev idle : Keyboard
idle = record { kb_buffer = λ _. 0; kb_head = 250; kb_tail = 250; shift_held = false }

idle-InBounds : InBounds idle
idle-InBounds = record { head_in = omega arith; tail_in = omega arith }

not_redirected : task_current_uses_input_redirect no_tasks ≡ false
unfolding task_current_uses_input_redirect uses_redirect
not_redirected = refl

-- Shift down, A down, A up, shift up, B down.
abbrev codes : List ℕ
codes = 0x2a ∷ 0x1e ∷ 0x9e ∷ 0xaa ∷ 0x30 ∷ []

-- "Ab"
decoded : decode false codes ≡ 65 ∷ 98 ∷ []
unfolding decode emits shift_after key_char
decoded = refl

short : length (typed idle) + length (decode false codes) ≤ 255
unfolding typed decode emits shift_after key_char contents span count
short = omega arith

run_codes-decode_example : typed (run_codes codes idle) ≡ typed idle ++ decode false codes
run_codes-decode_example =
    run_codes-decode codes idle idle-InBounds
      (omega arith, (omega arith, (omega arith, (omega arith, (omega arith, _))))) short
