-- ===== src/Desktop/Order.antt =====
-- kernel/desktop.c: `window_order` as a list without repetitions.
use kronked_os.Prelude.{
  ℕ, zero, suc, ◌+◌, ◌≤◌, ◌<◌, ◌≡◌, refl, ap, Bool, true, false, not, ◌&&◌, ◌||◌, Option, none,
  some, List, [], ◌∷◌, ◌++◌, ◌==◌, length, arith, Bool-cases, inl, inr,
}
use kronked_os.Desktop.{remove_slot, last_slot}

unfoldable pub is_in : ℕ → List ℕ → Bool
is_in i [] = false
is_in i (s ∷ order) = s == i || is_in i order

abbrev pub Distinct : List ℕ → Type 0
Distinct [] = true ≡ true
Distinct (s ∷ order) = (is_in s order ≡ false) × Distinct order

-- Two slots that are the same are both in the list or both not.
same_in : (s i : ℕ) (order : List ℕ) → s ≡ i → is_in s order ≡ is_in i order
same_in s i order e = ap (λ k. is_in k order) e

pub is_in-remove_slot :
    (i s : ℕ) (order : List ℕ)
    → Distinct order
    → is_in i (remove_slot s order) ≡ (is_in i order && not (s == i))
unfolding is_in remove_slot
is_in-remove_slot i s [] h = refl
is_in-remove_slot i s (t ∷ order) h =
    ground (arith, is_in-remove_slot i s order h.1, same_in t i order, h.0)

pub remove_slot-Distinct :
    (s : ℕ) (order : List ℕ) → Distinct order → Distinct (remove_slot s order)
unfolding remove_slot
remove_slot-Distinct s [] h = h
remove_slot-Distinct s (t ∷ order) h = elim (Bool-cases (t == s)) [
  | inl e ↦ rw e h.1
  | inr e ↦
      rw e (ground (arith, is_in-remove_slot t s order h.1, h.0), remove_slot-Distinct s order h.1)
]

pub is_in-push :
    (i s : ℕ) (order : List ℕ) → is_in i (order ++ (s ∷ [])) ≡ (is_in i order || s == i)
unfolding is_in
is_in-push i s [] = ground arith
is_in-push i s (t ∷ order) = ground (arith, is_in-push i s order)

pub push-Distinct :
    (s : ℕ) (order : List ℕ) → Distinct order → is_in s order ≡ false → Distinct (order ++ (s ∷ []))
unfolding is_in
push-Distinct s [] h new = (refl, refl)
push-Distinct s (t ∷ order) h new = (
  ground (arith, is_in-push t s order, h.0, new),
  push-Distinct s order h.1 (ground (arith, new)),
)

-- A slot that is held is in the list.
abbrev pub Held : Option ℕ → List ℕ → Type 0
Held none order = true ≡ true
Held (some s) order = is_in s order ≡ true

pub Held-cons : (o : Option ℕ) (s : ℕ) (order : List ℕ) → Held o order → Held o (s ∷ order)
unfolding is_in
Held-cons none s order h = refl
Held-cons (some r) s order h = ground (arith, h)

pub last_slot-Held : (order : List ℕ) → Held (last_slot order) order
unfolding last_slot is_in
last_slot-Held [] = refl
last_slot-Held (s ∷ []) = ground arith
last_slot-Held (s ∷ t ∷ order) =
    Held-cons (last_slot (t ∷ order)) s (t ∷ order) (last_slot-Held (t ∷ order))

length-remove_slot : (s : ℕ) (order : List ℕ) → length order ≤ length (remove_slot s order) + 1
unfolding remove_slot
length-remove_slot s [] = omega arith
length-remove_slot s (t ∷ order) = ground (arith, length-remove_slot s order)

-- Slots below `n` without repetitions are at most `n`.
pub length-Distinct :
    (n : ℕ) (order : List ℕ)
    → Distinct order
    → ((i : ℕ) → is_in i order ≡ true → i < n)
    → length order ≤ n
unfolding is_in
length-Distinct zero [] d h = omega arith
length-Distinct zero (t ∷ order) d h = absurd (omega (arith, h t (ground arith)))
length-Distinct (suc n) order d h = omega (
  arith,
  length-remove_slot n order,
  length-Distinct n (remove_slot n order) (remove_slot-Distinct n order d)
      (λ i k. ground (arith, k, is_in-remove_slot i n order d, h i)),
)
