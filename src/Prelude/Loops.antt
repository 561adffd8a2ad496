-- ===== src/Prelude/Loops.antt =====
-- The loops of the sources that fill a part of an array, and what they leave in it.
use Prim.Native.Nat.{ℕ, zero, suc, ◌+◌, ◌*◌, ◌≤◌, ◌<◌}
use mathlib.Core.Path.{◌≡◌, ap}
use mathlib.Core.Logic.{◌⊎◌, inl, inr}
use mathlib.Core.Bool.{Bool, ◌&&◌}
use native.Mathlib.Omega.{arith}
use kronked_os.Prelude.Tests.{ltb, leb, if◌then◌else◌}
use kronked_os.Prelude.Family.{update}

-- `for (...) m[i++] = v`, `n` times.
unfoldable pub fill_row : ℕ → ℕ → ℕ → (ℕ → ℕ) → ℕ → ℕ
fill_row zero i color m = m
fill_row (suc n) i color m = fill_row n (i + 1) color (update m i color)

-- The same in `k` rows from `yy` on, from the place `x0` of each.
unfoldable pub fill_rows : ℕ → ℕ → ℕ → ℕ → ℕ → ℕ → (ℕ → ℕ) → ℕ → ℕ
fill_rows zero yy x0 n pitch color m = m
fill_rows (suc k) yy x0 n pitch color m =
    fill_rows k (yy + 1) x0 n pitch color (fill_row n (yy * pitch + x0) color m)

-- `j` is among the `n` places from `i` on.
abbrev pub within : ℕ → ℕ → ℕ → Bool
within i n j = leb i j && ltb j (i + n)

pub fill_row_lem :
    (n i color : ℕ) (m : ℕ → ℕ) (j : ℕ)
    → fill_row n i color m j ≡ (if within i n j then color else m j)
unfolding fill_row
fill_row_lem zero i color m j = ground arith
fill_row_lem (suc n) i color m j = ground (arith, fill_row_lem n (i + 1) color (update m i color) j)

pub rows_apart : (q y w : ℕ) → q < y → q * w + w ≤ y * w
rows_apart q y w lt = grind arith

pub tri : (q y : ℕ) → (q < y) ⊎ ((q ≡ y) ⊎ (y < q))
tri q y = ground arith

-- A run of places in the row `y` meets the place (p, q) in that row alone.
pub within_row :
    (y x n w p q : ℕ)
    → p < w
    → (n ≡ 0) ⊎ (x + n ≤ w)
    → within (y * w + x) n (q * w + p) ≡ (leb y q && leb q y && within x n p)
within_row y x n w p q hp hx = elim (tri q y) [
  | inl lt ↦ ground (arith, rows_apart q y w lt)
  | inr (inl same) ↦ let e : q * w ≡ y * w = ap (λ r. r * w) same in ground arith
  | inr (inr gt) ↦ ground (arith, rows_apart y q w gt)
]

pub fill_rows_lem :
    (k y x n w color : ℕ) (m : ℕ → ℕ) (p q : ℕ)
    → p < w
    → (n ≡ 0) ⊎ (x + n ≤ w)
    → fill_rows k y x n w color m (q * w + p)
      ≡ (if within y k q && within x n p then color else m (q * w + p))
unfolding fill_rows
fill_rows_lem zero y x n w color m p q hp hx = ground arith
fill_rows_lem (suc k) y x n w color m p q hp hx = ground (
  arith,
  fill_rows_lem k (y + 1) x n w color (fill_row n (y * w + x) color m) p q hp hx,
  fill_row_lem n (y * w + x) color m (q * w + p),
  within_row y x n w p q hp hx,
)
