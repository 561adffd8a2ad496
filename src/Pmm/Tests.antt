-- ===== src/Pmm/Tests.antt =====
-- Runs of kernel/pmm.c, and its theorems at a machine with 128 MiB of RAM and one map entry.
use kronked_os.Prelude.{ℕ, ◌≡◌, refl, ◌≢◌, true, false, arith, inl, inr, ◌∙◌}
use kronked_os.Pmm.Bitmap.{bitmap_test}
use kronked_os.Pmm.{Pmm, take_frame, pmm_alloc_frame, pmm_free_frame}
use kronked_os.Pmm.Valid.{IsValid, take_frame-IsValid}
use kronked_os.Pmm.Alloc.{AllocOutcome, pmm_alloc_frame_lem}
use kronked_os.Pmm.Refs.{Released, pmm_free_frame-Released}
use kronked_os.Pmm.Init.{MmapEntry, boot, pmm_init, walk_map}
use kronked_os.Pmm.Init.Outcome.{
  AllWhole, Whole, everywhere-AllWhole, listed, in_entry, in_kernel, pmm_init_lem, walk_map-fuel,
}

-- One entry of 24 bytes at address 0: all 128 MiB are RAM.
abbrev pub ram : ℕ → MmapEntry
ram _ = record { size = 20; addr = 0; len = 0x8000000; kind = 1 }

-- The kernel's image lies from 1 MiB to 1.5 MiB.
abbrev pub booted : Pmm
booted = pmm_init ram 0 24 0x100000 0x180000 boot

pub ram-AllWhole : AllWhole ram 24 0 24
ram-AllWhole = everywhere-AllWhole ram 24 0 24 (unfold Whole in λ a. (refl, omega arith))

walk_map-fuel_example : walk_map ram 100 0 24 boot ≡ walk_map ram 24 0 24 boot
walk_map-fuel_example =
    walk_map-fuel ram 24 100 0 24 boot (λ a h. omega arith) (omega arith) (omega arith)

abbrev pub booted-IsValid : IsValid booted
booted-IsValid = (pmm_init_lem ram 0 24 0x100000 0x180000 ram-AllWhole).0.valid

pub frame_0_used : bitmap_test booted.bitmap 0 ≡ true
unfolding listed in_entry in_kernel
frame_0_used = (pmm_init_lem ram 0 24 0x100000 0x180000 ram-AllWhole).2 0 (omega arith) ∙ refl

-- A frame of the kernel's image.
pub frame_256_used : bitmap_test booted.bitmap 256 ≡ true
unfolding listed in_entry in_kernel
frame_256_used = (pmm_init_lem ram 0 24 0x100000 0x180000 ram-AllWhole).2 256 (omega arith) ∙ refl

pub frame_257_used : bitmap_test booted.bitmap 257 ≡ true
unfolding listed in_entry in_kernel
frame_257_used = (pmm_init_lem ram 0 24 0x100000 0x180000 ram-AllWhole).2 257 (omega arith) ∙ refl

pub frame_258_used : bitmap_test booted.bitmap 258 ≡ true
unfolding listed in_entry in_kernel
frame_258_used = (pmm_init_lem ram 0 24 0x100000 0x180000 ram-AllWhole).2 258 (omega arith) ∙ refl

pub frame_512_free : bitmap_test booted.bitmap 512 ≡ false
unfolding listed in_entry in_kernel
frame_512_free = (pmm_init_lem ram 0 24 0x100000 0x180000 ram-AllWhole).2 512 (omega arith) ∙ refl

pmm_alloc_frame_lem_example : AllocOutcome booted (pmm_alloc_frame booted)
pmm_alloc_frame_lem_example = pmm_alloc_frame_lem booted-IsValid frame_0_used

pub allocates : (pmm_alloc_frame booted).0 ≢ 0
allocates = elim (pmm_alloc_frame_lem booted-IsValid frame_0_used) [
  | inl (f, e, ne, lt, c) ↦ ne
  | inr (e, same, all) ↦ cc (all 512 (omega arith), frame_512_free)
]

-- Frame 512 is held once.
abbrev held : Pmm
held = take_frame 512 booted

held-IsValid : IsValid held
held-IsValid = take_frame-IsValid 512 (omega arith) frame_512_free booted-IsValid

held_once : held.refcount 512 ≡ 1
unfolding take_frame
held_once = refl

pmm_free_frame-Released_example : Released held 512 (pmm_free_frame 0x200000 held)
pmm_free_frame-Released_example = pmm_free_frame-Released held-IsValid 0x200000 (omega arith)

-- 255 references to every frame.
abbrev crowded : Pmm
crowded = record boot { refcount = λ _. 255 }
