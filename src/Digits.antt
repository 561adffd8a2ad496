-- ===== src/Digits.antt =====
-- The loop that writes a number in decimal from the end of a buffer of 11 bytes: kernel/shell.c,
-- and the same in kernel/editor.c and kernel/snake.c.
use kronked_os.Prelude.{ℕ, zero, suc, ◌+◌, ◌/◌, ◌%◌, List, [], ◌∷◌, ◌==◌, if◌then◌else◌}

-- `while (n > 0 && i > 0) { buf[--i] = '0' + n % 10; n /= 10; }`, with the text behind `i`.
unfoldable pub digits_from : ℕ → ℕ → List ℕ → List ℕ
digits_from zero n buf = buf
digits_from (suc i) n buf =
    let rest = digits_from i (n / 10) ((48 + n % 10) ∷ buf) in if n == 0 then buf else rest

-- What is printed for `n`.
unfoldable pub dec_digits : ℕ → List ℕ
unfolding digits_from
dec_digits n = if n == 0 then 48 ∷ [] else digits_from 10 n []
