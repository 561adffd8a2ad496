-- ===== src/Kronk/Number.antt =====
-- kernel/kronk.c: printing a number and reading it back.
use kronked_os.Prelude.{
  ℕ, zero, suc, ◌+◌, ◌-◌, ◌/◌, ◌%◌, ◌^◌, ◌<◌, ◌≤◌, ◌≡◌, refl, ap, ◌∙◌, true, false, List, [], ◌∷◌,
  ◌==◌, arith, inl, inr, Bool-cases,
}
use kronked_os.Kronk.{
  digits_of, print_unsigned, print_int, parse_digits, parse_number, is_digit, is_negative, negate,
  negate_first, add, multiply,
}

-- Reading the next digit of a number below 2^32.
next_digit :
    (u : ℕ) (buf : List ℕ)
    → u < 2 ^ 32
    → parse_digits (u / 10) ((48 + u % 10) ∷ buf) ≡ parse_digits u buf
unfolding parse_digits
next_digit u buf lt =
    let digit : is_digit (48 + u % 10) ≡ true = ground arith in
    let value : add (multiply (u / 10) 10) (48 + u % 10 - 48) ≡ u = omega arith in
    rw digit (ap (λ x. parse_digits x buf) value)

read_back :
    (rounds u : ℕ) (buf : List ℕ)
    → u < 10 ^ rounds
    → u < 2 ^ 32
    → parse_digits 0 (digits_of rounds u buf) ≡ parse_digits u buf
unfolding digits_of
read_back zero u buf lt small =
    let none_left : 0 ≡ u = omega arith in ap (λ x. parse_digits x buf) none_left
read_back (suc rounds) u buf lt small =
    let shorter : u / 10 < 10 ^ rounds = omega arith in
    elim (Bool-cases (u == 0)) [
      | inl done ↦ rw done (ap (λ x. parse_digits x buf) (ground arith))
      | inr more ↦ rw more (
          read_back rounds (u / 10) ((48 + u % 10) ∷ buf) shorter (omega arith)
          ∙ next_digit u buf small)
    ]

print_zero : (u : ℕ) → (u == 0) ≡ true → print_unsigned u ≡ 48 ∷ []
unfolding print_unsigned
print_zero u e = ground arith

print_more : (u : ℕ) → (u == 0) ≡ false → print_unsigned u ≡ digits_of 10 u []
unfolding print_unsigned
print_more u e = ground arith

zero_back : parse_digits 0 (48 ∷ []) ≡ (0, [])
unfolding parse_digits
zero_back = refl

end_back : (u : ℕ) → parse_digits u [] ≡ (u, [])
unfolding parse_digits
end_back u = refl

unsigned_back : (u : ℕ) → u < 2 ^ 32 → parse_digits 0 (print_unsigned u) ≡ (u, [])
unsigned_back u small = elim (Bool-cases (u == 0)) [
  | inl e ↦ ap (parse_digits 0) (print_zero u e) ∙ zero_back ∙ ap (λ x. (x, [])) (ground arith)
  | inr e ↦
      ap (parse_digits 0) (print_more u e) ∙ read_back 10 u [] (omega arith) small ∙ end_back u
]

-- A text that starts with a digit has no sign.
plain : (c : ℕ) (buf : List ℕ) → 48 ≤ c → parse_number (c ∷ buf) ≡ parse_digits 0 (c ∷ buf)
unfolding parse_number
plain c buf le = ground arith

no_sign :
    (rounds u c : ℕ) (buf : List ℕ)
    → 48 ≤ c
    → parse_number (digits_of rounds u (c ∷ buf)) ≡ parse_digits 0 (digits_of rounds u (c ∷ buf))
unfolding digits_of
no_sign zero u c buf le = plain c buf le
no_sign (suc rounds) u c buf le = elim (Bool-cases (u == 0)) [
  | inl e ↦ rw e (plain c buf le)
  | inr e ↦ rw e (no_sign rounds (u / 10) (48 + u % 10) (c ∷ buf) (omega arith))
]

first_round :
    (rounds u : ℕ)
    → (u == 0) ≡ false
    → digits_of (suc rounds) u [] ≡ digits_of rounds (u / 10) ((48 + u % 10) ∷ [])
unfolding digits_of
first_round rounds u e = rw e refl

unsigned_plain : (u : ℕ) → parse_number (print_unsigned u) ≡ parse_digits 0 (print_unsigned u)
unsigned_plain u = elim (Bool-cases (u == 0)) [
  | inl e ↦ rw (print_zero u e) (plain 48 [] (omega arith))
  | inr e ↦
      rw (print_more u e, first_round 9 u e) (no_sign 9 (u / 10) (48 + u % 10) [] (omega arith))
]

signed : (p : List ℕ) → parse_number (45 ∷ p) ≡ negate_first (parse_digits 0 p)
unfolding parse_number
signed p = refl

print_negative : (n : ℕ) → is_negative n ≡ true → print_int n ≡ 45 ∷ print_unsigned (negate n)
unfolding print_int
print_negative n e = ground arith

print_plain : (n : ℕ) → is_negative n ≡ false → print_int n ≡ print_unsigned n
unfolding print_int
print_plain n e = ground arith

-- The text that PRINT shows for any `int` is read back by `parse_number` as that `int`, to its end.
pub parse_number-print_int : (n : ℕ) → n < 2 ^ 32 → parse_number (print_int n) ≡ (n, [])
parse_number-print_int n small = elim (Bool-cases (is_negative n)) [
  | inl e ↦
      ap parse_number (print_negative n e)
      ∙ signed (print_unsigned (negate n))
      ∙ ap negate_first (unsigned_back (negate n) (omega arith))
      ∙ ap (λ x. (x, [])) twice
  | inr e ↦ ap parse_number (print_plain n e) ∙ unsigned_plain n ∙ unsigned_back n small
]
  where
    twice : negate (negate n) ≡ n
    twice = omega arith
