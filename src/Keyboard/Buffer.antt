-- ===== src/Keyboard/Buffer.antt =====
-- The ring buffer of kernel/keyboard.c as a FIFO of characters.
use kronked_os.Prelude.{
  ℕ, ◌+◌, ◌%◌, ◌<◌, ◌≡◌, refl, ap, Bool, true, false, Option, none, some, List, [], ◌∷◌, ◌++◌, ◌==◌,
  if◌then◌else◌, Bool-cases, inl, inr, length, arith, ◌⊎◌,
}
use kronked_os.Ring.{span, contents, length-contents, count, full_iff, push_back, pop_front}
use kronked_os.Task.{Tasks}
use kronked_os.Task.Input.{task_current_uses_input_redirect}
use kronked_os.Keyboard.{
  Keyboard, kb_buf_size, kb_buffer_push, take_key, get_hardware, keyboard_getchar,
}

-- The characters that wait, oldest first.
unfoldable pub typed : Keyboard → List ℕ
typed k = contents kb_buf_size k.kb_buffer k.kb_head k.kb_tail

pub record InBounds (k : Keyboard) : Type 0 where
  pub head_in : k.kb_head < kb_buf_size
  pub tail_in : k.kb_tail < kb_buf_size

-- `kb_buffer_push` adds the character behind the others if fewer than 255 wait, drops it if 255 do,
-- and keeps the indices in the buffer and the shift state.
pub kb_buffer_push_lem :
    (k : Keyboard) (c : ℕ)
    → InBounds k
    → (typed (kb_buffer_push c k)
        ≡ (if length (typed k) == 255 then typed k else typed k ++ (c ∷ [])))
      × InBounds (kb_buffer_push c k)
      × ((kb_buffer_push c k).shift_held ≡ k.shift_held)
unfolding kb_buffer_push typed
kb_buffer_push_lem k c b = ground (
  arith,
  length-contents 256 k.kb_buffer k.kb_head k.kb_tail,
  full_iff 256 k.kb_buffer k.kb_head k.kb_tail b.head_in b.tail_in,
  push_back 256 k.kb_buffer k.kb_head k.kb_tail b.head_in b.tail_in c,
)

abbrev pub GetOutcome : Tasks → Keyboard → Option (ℕ × Tasks × Keyboard) → Type 0
GetOutcome s k r =
    ((typed k ≡ []) × (r ≡ none))
    ⊎ ((c : ℕ) × (rest : List ℕ) × (k' : Keyboard) × (typed k ≡ c ∷ rest)
        × (r ≡ some (c, s, k'))
        × (typed k' ≡ rest)
        × InBounds k'
        × (k'.shift_held ≡ k.shift_held))

empty_typed : (k : Keyboard) → k.kb_head ≡ k.kb_tail → typed k ≡ []
unfolding typed contents span count
empty_typed k e =
    let none_left : count 256 k.kb_head k.kb_tail ≡ 0 = ground arith in
    ap (span 256 k.kb_buffer k.kb_tail) none_left

get_eq :
    (s : Tasks) (k : Keyboard) (b : Bool)
    → task_current_uses_input_redirect s ≡ false
    → (k.kb_head == k.kb_tail) ≡ b
    → keyboard_getchar s k ≡ (if b then none else some ((take_key k).0, s, (take_key k).1))
unfolding keyboard_getchar get_hardware
get_eq s k true off e = simp (off, e)
get_eq s k false off e = simp (off, e)

-- For a task whose input is not redirected `keyboard_getchar` waits exactly while no character is
-- there, and otherwise returns the oldest one and takes it out, touching no task.
pub keyboard_getchar_lem :
    (s : Tasks) (k : Keyboard)
    → task_current_uses_input_redirect s ≡ false
    → InBounds k
    → GetOutcome s k (keyboard_getchar s k)
unfolding typed take_key
keyboard_getchar_lem s k off b = elim (Bool-cases (k.kb_head == k.kb_tail)) [
  | inl same ↦ inl (empty_typed k (ground arith), get_eq s k true off same)
  | inr apart ↦ inr (
    k.kb_buffer k.kb_tail,
    contents 256 k.kb_buffer k.kb_head ((k.kb_tail + 1) % 256),
    record k { kb_tail = (k.kb_tail + 1) % 256 },
    pop_front 256 k.kb_buffer k.kb_head k.kb_tail b.head_in b.tail_in (ground arith),
    get_eq s k false off apart,
    refl,
    record { head_in = b.head_in; tail_in = omega arith },
    refl,
  )
]
