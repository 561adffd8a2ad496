-- ===== src/Task/Input/Queue.antt =====
-- The input queue of a task (kernel/task.c) as a FIFO of characters.
use kronked_os.Prelude.{
  ℕ, ◌+◌, ◌%◌, ◌<◌, ◌≡◌, refl, ◌≢◌, ap, ◌∙◌, sym, Bool, true, false, some, List, [], ◌∷◌, ◌++◌,
  ◌==◌, if◌then◌else◌, Bool-cases, inl, inr, length, arith, ◌⊎◌,
}
use mathlib.Core.Path.{subst}
use kronked_os.Ring.{
  span, contents, length-contents, count, count-lt, full_iff, push_back, pop_front,
}
use kronked_os.Task.Valid.Ids.{find_task-id}
use kronked_os.Task.{Task, Tasks, at_task, at_current, find_task, task_unblock, unblock_one, wake}
use kronked_os.Task.Input.{
  input_queue_size, input_full, store_char, push_to, task_push_input_char, has_input,
  task_current_input_has_char, take_char, first_char, task_current_input_getchar,
}

-- The characters that wait for the task, oldest first.
unfoldable pub waiting : Task → List ℕ
waiting t = contents input_queue_size t.input_queue t.input_head t.input_tail

-- Both indices lie in the array.
pub record InBounds (t : Task) : Type 0 where
  pub head_in : t.input_head < input_queue_size
  pub tail_in : t.input_tail < input_queue_size

find_at :
    (id : ℕ) (f : Task → Task) (ts : List Task) (t : Task)
    → ((u : Task) → (f u).id ≡ u.id)
    → find_task id ts ≡ some t
    → find_task id (at_task id f ts) ≡ some (f t)
unfolding find_task at_task
find_at id f [] t h e = cc
find_at id f (u ∷ ts) t h e = ground (arith, h u, h t, find_at id f ts t h)

find_other :
    (id j : ℕ) (f : Task → Task) (ts : List Task)
    → ((u : Task) → (f u).id ≡ u.id)
    → j ≢ id
    → find_task j (at_task id f ts) ≡ find_task j ts
unfolding find_task at_task
find_other id j f [] h ne = refl
find_other id j f (u ∷ ts) h ne = ground (arith, h u, find_other id j f ts h ne)

full_cases :
    (t : Task)
    → InBounds t
    → ((length (waiting t) ≡ 63) × (input_full t ≡ true))
      ⊎ ((length (waiting t) < 63) × (input_full t ≡ false))
unfolding waiting input_full
full_cases t b = ground (
  arith,
  length-contents 64 t.input_queue t.input_head t.input_tail,
  full_iff 64 t.input_queue t.input_head t.input_tail b.head_in b.tail_in,
  count-lt 64 t.input_head t.input_tail b.head_in b.tail_in,
)

store_char-waiting :
    (t : Task) (c : ℕ)
    → InBounds t
    → input_full t ≡ false
    → (waiting (store_char c t) ≡ waiting t ++ (c ∷ [])) × InBounds (store_char c t)
unfolding waiting store_char input_full
store_char-waiting t c b room = (
  push_back 64 t.input_queue t.input_head t.input_tail b.head_in b.tail_in c (ground arith),
  record { head_in = omega arith; tail_in = b.tail_in },
)

-- After a push by the compositor: the task `t` of that id, and all the others.
abbrev pub PushOutcome : Tasks → ℕ → Task → ℕ → Bool × Tasks → Type 0
PushOutcome s id t c r =
    ((length (waiting t) ≡ 63) × (r ≡ (false, s)))
    ⊎ ((length (waiting t) < 63)
        × (r.0 ≡ true)
        × ((t' : Task) × (find_task id r.1.ring ≡ some t')
            × (waiting t' ≡ waiting t ++ (c ∷ []))
            × (t'.state ≡ wake t.state)
            × InBounds t')
        × ((j : ℕ) → j ≢ id → find_task j r.1.ring ≡ find_task j s.ring))

pushed :
    (s : Tasks) (id : ℕ) (t : Task) (c : ℕ)
    → find_task id s.ring ≡ some t
    → t.id ≡ id
    → InBounds t
    → (length (waiting t) < 63) × (input_full t ≡ false)
    → PushOutcome s id t c
        (true, task_unblock id (record s { ring = at_task id (store_char c) s.ring }))
unfolding task_unblock unblock_one store_char waiting
pushed s id t c found same b (small, room) =
    let ring' = at_task id (store_char c) s.ring in
    let (queue, bounds) = store_char-waiting t c b room in
    inr (
      small,
      refl,
      (
        unblock_one (store_char c t),
        find_at id unblock_one ring' (store_char c t) (λ u. refl)
            (find_at id (store_char c) s.ring t (λ u. refl) found),
        queue,
        refl,
        record { head_in = bounds.head_in; tail_in = bounds.tail_in },
      ),
      λ j ne.
          find_other id j unblock_one ring' (λ u. refl) ne
          ∙ find_other id j (store_char c) s.ring (λ u. refl) ne,
    )

push_eq :
    (s : Tasks) (id : ℕ) (t : Task) (c : ℕ) (b : Bool)
    → find_task id s.ring ≡ some t
    → t.id ≡ id
    → input_full t ≡ b
    → task_push_input_char id c s ≡ (
        if b
        then (false, s)
        else (true, task_unblock id (record s { ring = at_task id (store_char c) s.ring })))
unfolding task_push_input_char push_to
push_eq s id t c true found same e = simp (found, e)
push_eq s id t c false found same e = simp (found, same, e)

-- `task_push_input_char` to a task whose queue indices lie in the array: with 63 characters waiting
-- it reports failure and changes nothing; with fewer it reports success, puts the character behind
-- the others, makes the task READY if it was blocked, and leaves every other task alone.
pub task_push_input_char_lem :
    (s : Tasks) (id : ℕ) (t : Task) (c : ℕ)
    → find_task id s.ring ≡ some t
    → InBounds t
    → PushOutcome s id t c (task_push_input_char id c s)
task_push_input_char_lem s id t c found b =
    let same = find_task-id id s.ring t found in
    elim (full_cases t b) [
      | inl (full, e) ↦ inl (full, push_eq s id t c true found same e)
      | inr (small, room) ↦
          subst (PushOutcome s id t c) (sym (push_eq s id t c false found same room))
            (pushed s id t c found same b (small, room))
    ]

-- What the running task `t`, with `ts` behind it, gets from its queue.
abbrev pub GetOutcome : Tasks → Task → List Task → ℕ × Tasks → Type 0
GetOutcome s t ts r =
    ((waiting t ≡ []) × (r ≡ (0, s)))
    ⊎ ((c : ℕ) × (rest : List ℕ) × (t' : Task) × (waiting t ≡ c ∷ rest)
        × (r ≡ (c, record s { ring = t' ∷ ts }))
        × (waiting t' ≡ rest)
        × InBounds t')

empty_waiting : (t : Task) → InBounds t → t.input_head ≡ t.input_tail → waiting t ≡ []
unfolding waiting contents span count
empty_waiting t b e =
    let none_left : count 64 t.input_head t.input_tail ≡ 0 = ground arith in
    ap (span 64 t.input_queue t.input_tail) none_left

get_eq :
    (s : Tasks) (t : Task) (ts : List Task) (b : Bool)
    → s.ring ≡ t ∷ ts
    → (t.input_head == t.input_tail) ≡ b
    → task_current_input_getchar s
      ≡ (if b then (0, s) else (t.input_queue t.input_tail, record s { ring = take_char t ∷ ts }))
unfolding task_current_input_getchar task_current_input_has_char has_input first_char at_current
get_eq s t ts true ring e = simp (ring, e)
get_eq s t ts false ring e = simp (ring, e)

-- `task_current_input_getchar` for a running task whose queue indices lie in the array: it returns
-- 0 and changes nothing when no character waits, and otherwise returns the oldest and takes it out.
pub task_current_input_getchar_lem :
    (s : Tasks) (t : Task) (ts : List Task)
    → s.ring ≡ t ∷ ts
    → InBounds t
    → GetOutcome s t ts (task_current_input_getchar s)
unfolding waiting take_char
task_current_input_getchar_lem s t ts ring b = elim (Bool-cases (t.input_head == t.input_tail)) [
  | inl same ↦ inl (empty_waiting t b (ground arith), get_eq s t ts true ring same)
  | inr apart ↦ inr (
    t.input_queue t.input_tail,
    contents 64 t.input_queue t.input_head ((t.input_tail + 1) % 64),
    take_char t,
    pop_front 64 t.input_queue t.input_head t.input_tail b.head_in b.tail_in (ground arith),
    get_eq s t ts false ring apart,
    refl,
    record { head_in = b.head_in; tail_in = omega arith },
  )
]
