-- ===== src/Kronk.antt =====
-- kernel/kronk.c: the KRONK interpreter. A string is the list of its characters before the NUL, and a
-- pointer into it is the list of those that are left. An `int` is its 32-bit two's complement, from 0
-- to 2^32 - 1.
pub mod Expr
pub mod Exec
pub mod Run
pub mod Number
mod Tests
use kronked_os.Prelude.{
  ℕ, zero, suc, ◌+◌, ◌-◌, ◌*◌, ◌/◌, ◌%◌, ◌^◌, Bool, true, false, ◌&&◌, ◌||◌, not, List, [], ◌∷◌,
  ◌++◌, ◌==◌, ltb, leb, if◌then◌else◌,
}

abbrev pub word : ℕ
word = 2 ^ 32

-- The sign bit, the arithmetic of `int`, and its order.
abbrev pub is_negative : ℕ → Bool
is_negative n = leb (2 ^ 31) n

abbrev pub negate : ℕ → ℕ
negate n = (word - n % word) % word

abbrev pub add : ℕ → ℕ → ℕ
add a b = (a + b) % word

abbrev pub subtract : ℕ → ℕ → ℕ
subtract a b = (a + (word - b % word)) % word

abbrev pub multiply : ℕ → ℕ → ℕ
multiply a b = a * b % word

abbrev pub magnitude : ℕ → ℕ
magnitude n = if is_negative n then word - n else n

-- `/` rounds to zero. The least `int` divided by -1, which the processor refuses, is the least `int` here.
abbrev pub divide : ℕ → ℕ → ℕ
divide a b =
    let q = magnitude a / magnitude b in
    if is_negative a
    then (if is_negative b then q else negate q)
    else (if is_negative b then negate q else q)

abbrev pub less : ℕ → ℕ → Bool
less a b = ltb ((a + 2 ^ 31) % word) ((b + 2 ^ 31) % word)

-- The digits of `print_int`, from the last one up; ten rounds print every `unsigned int`.
unfoldable pub digits_of : ℕ → ℕ → List ℕ → List ℕ
digits_of zero u buf = buf
digits_of (suc rounds) u buf =
    let rest = digits_of rounds (u / 10) ((48 + u % 10) ∷ buf) in if u == 0 then buf else rest

unfoldable pub print_unsigned : ℕ → List ℕ
print_unsigned u = if u == 0 then 48 ∷ [] else digits_of 10 u []

unfoldable pub print_int : ℕ → List ℕ
print_int n = if is_negative n then 45 ∷ print_unsigned (negate n) else print_unsigned n

unfoldable pub skip_spaces : List ℕ → List ℕ
skip_spaces [] = []
skip_spaces (c ∷ p) = if c == 32 || c == 9 then skip_spaces p else c ∷ p

abbrev pub is_digit : ℕ → Bool
is_digit c = leb 48 c && leb c 57

abbrev pub is_upper : ℕ → Bool
is_upper c = leb 65 c && leb c 90

abbrev pub is_lower : ℕ → Bool
is_lower c = leb 97 c && leb c 122

abbrev pub is_letter : ℕ → Bool
is_letter c = is_upper c || is_lower c

abbrev pub var_index : ℕ → ℕ
var_index c = if is_lower c then c - 97 else c - 65

abbrev pub upper_char : ℕ → ℕ
upper_char c = if is_lower c then c - 32 else c

-- The loop of `parse_number`.
unfoldable pub parse_digits : ℕ → List ℕ → ℕ × List ℕ
parse_digits val [] = (val, [])
parse_digits val (c ∷ p) =
    if is_digit c then parse_digits (add (multiply val 10) (c - 48)) p else (val, c ∷ p)

abbrev pub negate_first : ℕ × List ℕ → ℕ × List ℕ
negate_first (val, p) = (negate val, p)

unfoldable pub parse_number : List ℕ → ℕ × List ℕ
unfolding parse_digits
parse_number [] = (0, [])
parse_number (c ∷ p) = if c == 45 then negate_first (parse_digits 0 p) else parse_digits 0 (c ∷ p)

unfoldable pub str_starts_with : List ℕ → List ℕ → Bool
str_starts_with s [] = true
str_starts_with [] (k ∷ kw) = false
str_starts_with (c ∷ s) (k ∷ kw) = upper_char c == k && str_starts_with s kw
