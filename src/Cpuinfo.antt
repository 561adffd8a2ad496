-- ===== src/Cpuinfo.antt =====
-- kernel/cpuinfo.c: the processor's vendor and brand. What `cpuid` answers is a parameter.
use kronked_os.Prelude.{
  ℕ, ◌/◌, ◌%◌, ◌^◌, Option, none, some, List, [], ◌∷◌, ◌++◌, ltb, if◌then◌else◌,
}

pub record CpuidAnswer : Type 0 where
  pub a : ℕ
  pub b : ℕ
  pub c : ℕ
  pub d : ℕ

abbrev pub Cpuid : Type 0
Cpuid = ℕ → CpuidAnswer

-- A register's four bytes, the lowest first.
unfoldable pub register_bytes : ℕ → List ℕ
register_bytes w = w % 256 ∷ w / 2 ^ 8 % 256 ∷ w / 2 ^ 16 % 256 ∷ w / 2 ^ 24 % 256 ∷ []

-- Without the NUL at the end.
unfoldable pub cpu_get_vendor : Cpuid → List ℕ
unfolding register_bytes
cpu_get_vendor cpuid =
    let r = cpuid 0 in register_bytes r.b ++ register_bytes r.d ++ register_bytes r.c

unfoldable pub answer_bytes : CpuidAnswer → List ℕ
unfolding register_bytes
answer_bytes r =
    register_bytes r.a ++ register_bytes r.b ++ register_bytes r.c ++ register_bytes r.d

unfoldable pub cpu_get_brand : Cpuid → Option (List ℕ)
unfolding answer_bytes
cpu_get_brand cpuid =
    if ltb (cpuid 0x80000000).a 0x80000004
    then none
    else some (
        answer_bytes (cpuid 0x80000002)
        ++ answer_bytes (cpuid 0x80000003)
        ++ answer_bytes (cpuid 0x80000004))
