-- ===== src/Ring.antt =====
-- A ring of characters with a head and a tail index, as kernel/keyboard.c and kernel/task.c each
-- keep one: the queue that it stands for, over any size.
use kronked_os.Prelude.{
  ℕ, zero, suc, ◌+◌, ◌-◌, ◌%◌, ◌<◌, ◌≡◌, refl, ◌≢◌, false, List, [], ◌∷◌, ◌++◌, ◌==◌, leb,
  if◌then◌else◌, length, update, arith, ap,
}

module _ (size : ℕ) where
  -- The `n` characters from index `t` on, going round at `size`.
  unfoldable pub span : (ℕ → ℕ) → ℕ → ℕ → List ℕ
  span buf t zero = []
  span buf t (suc n) = buf t ∷ span buf ((t + 1) % size) n

  -- How many characters lie between the two indices.
  unfoldable pub count : ℕ → ℕ → ℕ
  count head tail = if leb tail head then head - tail else head + size - tail

  unfoldable pub contents : (ℕ → ℕ) → ℕ → ℕ → List ℕ
  contents buf head tail = span buf tail (count head tail)

  pub count-lt : (h t : ℕ) → h < size → t < size → count h t < size
  unfolding count
  count-lt h t p q = ground arith

  next_cases : (h : ℕ) → h < size → (h + 1) % size ≡ (if (h + 1) == size then 0 else h + 1)
  next_cases h lt = grind arith

  length-span : (buf : ℕ → ℕ) (t n : ℕ) → length (span buf t n) ≡ n
  unfolding span
  length-span buf t zero = refl
  length-span buf t (suc n) = ap suc (length-span buf ((t + 1) % size) n)

  pub length-contents : (buf : ℕ → ℕ) (h t : ℕ) → length (contents buf h t) ≡ count h t
  unfolding contents
  length-contents buf h t = length-span buf t (count h t)

  -- Writing the cell `n` places behind `t` adds it to a shorter span.
  span-update :
      (buf : ℕ → ℕ) (n t i c : ℕ)
      → t < size
      → n < size
      → i ≡ (if leb size (t + n) then t + n - size else t + n)
      → span (update buf i c) t (suc n) ≡ span buf t n ++ (c ∷ [])
  unfolding span
  span-update buf zero t i c lt ln e = ground arith
  span-update buf (suc n) t i c lt ln e =
      let step =
        span-update buf n ((t + 1) % size) i c (omega arith) (omega arith)
          (ground (arith, next_cases t lt)) in
      let apart : (i == t) ≡ false = ground arith in rw (apart, step)

  module _ (buf : ℕ → ℕ) (head tail : ℕ) (h_in : head < size) (t_in : tail < size) where
    -- The slot behind the head is the tail exactly if all but one slot are taken.
    pub full_iff : ((head + 1) % size == tail) ≡ (count head tail + 1 == size)
    unfolding count
    full_iff = ground (arith, next_cases head h_in)

    pub empty_iff : (head == tail) ≡ (count head tail == 0)
    unfolding count
    empty_iff = ground arith

    -- Storing at the head and moving it adds at the back.
    pub push_back :
        (c : ℕ)
        → (head + 1) % size ≢ tail
        → contents (update buf head c) ((head + 1) % size) tail ≡ contents buf head tail ++ (c ∷ [])
    unfolding contents
    push_back c ne =
        let more : count ((head + 1) % size) tail ≡ suc (count head tail) =
          unfold count in ground (arith, next_cases head h_in) in
        rw more (
          span-update buf (count head tail) tail head c t_in (unfold count in ground arith)
            (unfold count in ground arith))

    -- Moving the tail takes from the front.
    pub pop_front :
        head ≢ tail → contents buf head tail ≡ buf tail ∷ contents buf head ((tail + 1) % size)
    unfolding contents span
    pop_front ne =
        let more : count head tail ≡ suc (count head ((tail + 1) % size)) =
          unfold count in ground (arith, next_cases tail t_in) in
        rw more
