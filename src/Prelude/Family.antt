-- ===== src/Prelude/Family.antt =====
-- A static array whose index the code keeps in range is a function of the index.
use Prim.Native.Nat.{ℕ}
use kronked_os.Prelude.Tests.{◌==◌, if◌then◌else◌}

-- `f[i] = v`
abbrev pub update {ℓ} : {A : Type ℓ} → (ℕ → A) → ℕ → A → ℕ → A
update f i v j = if i == j then v else f j
