-- ===== src/Prelude/Bits.antt =====
-- Single-bit masks on bytes, the form of the frame bitmap of kernel/pmm.c.
use Prim.Native.Nat.{ℕ, zero, suc, ◌-◌, ◌^◌, ◌<◌, bit_and, bit_or}
use mathlib.Core.Path.{◌≡◌, refl}
use mathlib.Core.Bool.{Bool, true, false, not, ◌&&◌}
use native.Mathlib.Omega.{arith}
use kronked_os.Prelude.Tests.{◌==◌, ltb, ltb→lt, if◌then◌else◌}

-- `b & (1 << k)` as a truth value, `b | (1 << k)`, and `b & ~(1 << k)` on an unsigned char.
unfoldable pub has_bit : ℕ → ℕ → Bool
has_bit b k = not (bit_and b (2 ^ k) == 0)

unfoldable pub with_bit : ℕ → ℕ → ℕ
with_bit b k = bit_or b (2 ^ k)

unfoldable pub without_bit : ℕ → ℕ → ℕ
without_bit b k = bit_and b (255 - 2 ^ k)

-- Over a small range, every value is checked by evaluation.
unfoldable pub all_below : ℕ → (ℕ → Bool) → Bool
all_below zero p = true
all_below (suc n) p = p n && all_below n p

pub all_below_sound : (n : ℕ) (p : ℕ → Bool) (x : ℕ) → all_below n p ≡ true → x < n → p x ≡ true
unfolding all_below
all_below_sound zero p x h lt = elim lt [ ]
all_below_sound (suc n) p x h lt = ground (arith, all_below_sound n p x)

bool_eq : Bool → Bool → Bool
bool_eq true b = b
bool_eq false b = not b

bool_eq_sound : (a b : Bool) → bool_eq a b ≡ true → a ≡ b
unfolding bool_eq
bool_eq_sound a b h = ground arith

-- All bytes and all pairs of bit positions at once.
all_cases : (ℕ → ℕ → ℕ → Bool) → Bool
all_cases p = all_below 256 (λ b. all_below 8 (λ k. all_below 8 (λ j. p b k j)))

all_cases_sound :
    (p : ℕ → ℕ → ℕ → Bool) (b k j : ℕ)
    → all_cases p ≡ true
    → b < 256
    → k < 8
    → j < 8
    → p b k j ≡ true
unfolding all_cases
all_cases_sound p b k j h hb hk hj =
    all_below_sound 8 (λ j. p b k j) j
      (all_below_sound 8 (λ k. all_below 8 (λ j. p b k j)) k
        (all_below_sound 256 (λ b. all_below 8 (λ k. all_below 8 (λ j. p b k j))) b h hb) hk)
      hj

abbrev with_bit_test : ℕ → ℕ → ℕ → Bool
with_bit_test b k j = bool_eq (has_bit (with_bit b k) j) (if k == j then true else has_bit b j)

abbrev without_bit_test : ℕ → ℕ → ℕ → Bool
without_bit_test b k j =
    bool_eq (has_bit (without_bit b k) j) (if k == j then false else has_bit b j)

with_bit_table : all_cases with_bit_test ≡ true
unfolding all_cases all_below has_bit with_bit bool_eq
with_bit_table = refl

without_bit_table : all_cases without_bit_test ≡ true
unfolding all_cases all_below has_bit without_bit bool_eq
without_bit_table = refl

range_table : all_cases (λ b k j. ltb (with_bit b k) 256 && ltb (without_bit b k) 256) ≡ true
unfolding all_cases all_below with_bit without_bit
range_table = refl

pub has_bit-with_bit :
    (b k j : ℕ)
    → b < 256
    → k < 8
    → j < 8
    → has_bit (with_bit b k) j ≡ (if k == j then true else has_bit b j)
has_bit-with_bit b k j hb hk hj =
    bool_eq_sound _ _ (all_cases_sound with_bit_test b k j with_bit_table hb hk hj)

pub has_bit-without_bit :
    (b k j : ℕ)
    → b < 256
    → k < 8
    → j < 8
    → has_bit (without_bit b k) j ≡ (if k == j then false else has_bit b j)
has_bit-without_bit b k j hb hk hj =
    bool_eq_sound _ _ (all_cases_sound without_bit_test b k j without_bit_table hb hk hj)

bytes_stay :
    (b k : ℕ) → b < 256 → k < 8 → (ltb (with_bit b k) 256 && ltb (without_bit b k) 256) ≡ true
bytes_stay b k hb hk =
    all_cases_sound (λ b k j. ltb (with_bit b k) 256 && ltb (without_bit b k) 256) b k 0 range_table
      hb hk (omega arith)

pub with_bit-lt : (b k : ℕ) → b < 256 → k < 8 → with_bit b k < 256
with_bit-lt b k hb hk = ltb→lt _ _ (ground (arith, bytes_stay b k hb hk))

pub without_bit-lt : (b k : ℕ) → b < 256 → k < 8 → without_bit b k < 256
without_bit-lt b k hb hk = ltb→lt _ _ (ground (arith, bytes_stay b k hb hk))
