-- ===== src/Gdt.antt =====
-- kernel/gdt.c: the segment descriptors and the TSS.
use kronked_os.Prelude.{
  ℕ, ◌+◌, ◌-◌, ◌*◌, ◌/◌, ◌%◌, ◌^◌, ◌<◌, ◌≡◌, refl, ◌==◌, if◌then◌else◌, update, arith,
}

-- `struct gdt_entry`
pub record GdtEntry : Type 0 where
  pub limit_low : ℕ
  pub base_low : ℕ
  pub base_middle : ℕ
  pub access : ℕ
  pub granularity : ℕ
  pub base_high : ℕ

-- The fields of `struct tss_entry` that are set; the others are 0.
pub record Tss : Type 0 where
  pub esp0 : ℕ
  pub ss0 : ℕ
  pub iomap_base : ℕ

abbrev pub Gdt : Type 0
Gdt = ℕ → GdtEntry

-- The two halves of `granularity` share no bit, so that `|=` adds them.
unfoldable pub gdt_set_entry : ℕ → ℕ → ℕ → ℕ → ℕ → Gdt → Gdt
gdt_set_entry i base limit access gran gdt = update gdt i (record {
  limit_low = limit % 65536;
  base_low = base % 65536;
  base_middle = base / 2 ^ 16 % 256;
  access = access;
  granularity = limit / 2 ^ 16 % 16 + gran / 16 % 16 * 16;
  base_high = base / 2 ^ 24 % 256;
})

-- `sizeof(struct tss_entry)`
abbrev pub tss_size : ℕ
tss_size = 104

unfoldable pub fresh_tss : Tss
fresh_tss = record { esp0 = 0; ss0 = 0x10; iomap_base = tss_size }

-- `tss_base` is the address of the TSS.
unfoldable pub gdt_init : ℕ → Gdt → Gdt × Tss
unfolding gdt_set_entry fresh_tss
gdt_init tss_base gdt =
    let flat = gdt_set_entry 4 0 0xffffffff 0xf2 0xcf (
      gdt_set_entry 3 0 0xffffffff 0xfa 0xcf (
        gdt_set_entry 2 0 0xffffffff 0x92 0xcf
          (gdt_set_entry 1 0 0xffffffff 0x9a 0xcf (gdt_set_entry 0 0 0 0 0 gdt)))) in
    (gdt_set_entry 5 tss_base (tss_size - 1) 0x89 0x40 flat, fresh_tss)

unfoldable pub tss_set_kernel_stack : ℕ → Tss → Tss
tss_set_kernel_stack esp0 tss = record tss { esp0 = esp0 }

-- What the processor reads of a descriptor: the base, the limit, which counts pages where the
-- granularity bit is set, and the ring.
abbrev pub base_of : GdtEntry → ℕ
base_of e = e.base_low + e.base_middle * 2 ^ 16 + e.base_high * 2 ^ 24

abbrev pub last_byte : GdtEntry → ℕ
last_byte e =
    let limit = e.limit_low + e.granularity % 16 * 2 ^ 16 in
    if e.granularity / 128 % 2 == 1 then limit * 4096 + 4095 else limit

abbrev pub ring_of : GdtEntry → ℕ
ring_of e = e.access / 32 % 4

-- A segment of all 4 GiB.
pub record Flat (ring : ℕ) (e : GdtEntry) : Type 0 where
  pub base : base_of e ≡ 0
  pub last : last_byte e ≡ 2 ^ 32 - 1
  pub level : ring_of e ≡ ring

-- The table that gdt_init leaves: the kernel's segments and the user's span the 4 GiB, in ring 0 and
-- in ring 3, and the task segment is the TSS, byte for byte.
pub record Segments (tss_base : ℕ) (gdt : Gdt) : Type 0 where
  pub kernel_code : Flat 0 (gdt 1)
  pub kernel_data : Flat 0 (gdt 2)
  pub user_code : Flat 3 (gdt 3)
  pub user_data : Flat 3 (gdt 4)
  pub tss_base_is : base_of (gdt 5) ≡ tss_base
  pub tss_last_is : last_byte (gdt 5) ≡ tss_size - 1

-- For a TSS at any 32-bit address, and whatever the table held before.
pub gdt_init_lem :
    (tss_base : ℕ) (gdt : Gdt) → tss_base < 2 ^ 32 → Segments tss_base (gdt_init tss_base gdt).0
unfolding gdt_init gdt_set_entry
gdt_init_lem tss_base gdt h = record {
  kernel_code = record { base = refl; last = refl; level = refl };
  kernel_data = record { base = refl; last = refl; level = refl };
  user_code = record { base = refl; last = refl; level = refl };
  user_data = record { base = refl; last = refl; level = refl };
  tss_base_is = omega (arith, h);
  tss_last_is = refl;
}
