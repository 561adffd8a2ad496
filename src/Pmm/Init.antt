-- ===== src/Pmm/Init.antt =====
-- `pmm_init` of kernel/pmm.c: the walk over the multiboot memory map (kernel/multiboot.h), and the
-- frames that are free afterwards.
pub mod Ranges
pub mod Outcome
use kronked_os.Prelude.{
  ℕ, zero, suc, ◌+◌, ◌-◌, ◌*◌, ◌/◌, ◌%◌, ◌^◌, ◌<◌, ◌≤◌, ◌≡◌, refl, ◌≢◌, Bool, true, false, not,
  ◌&&◌, ◌||◌, ◌==◌, ltb, leb, if◌then◌else◌, Bool-cases, update, arith, inl, inr,
}
use kronked_os.Prelude.Bits.{has_bit, all_below, all_below_sound}
use kronked_os.Pmm.Bitmap.{
  Frames, max_frames, bitmap_test, bitmap_set, IsBytes, count_used, test-set, test-clear,
}
use kronked_os.Pmm.{Pmm, frame_size, mark_used, mark_free}
use kronked_os.Pmm.Valid.{IsValid, mark_used-IsValid, mark_free-IsValid}

-- `struct multiboot_mmap_entry`; the widths are 32, 64, 64 and 32 bits.
pub record MmapEntry : Type 0 where
  pub size : ℕ
  pub addr : ℕ
  pub len : ℕ
  pub kind : ℕ

-- `for (f = ...; f < stop && f < MAX_FRAMES; f++) mark_free(f)`, on fuel.
unfoldable pub release_range : ℕ → ℕ → ℕ → Pmm → Pmm
release_range zero f stop s = s
release_range (suc n) f stop s =
    let rest = release_range n (f + 1) stop (mark_free f s) in
    if ltb f stop && ltb f max_frames then rest else s

-- `for (f = ...; f <= last; f++) mark_used(f)` with `n` rounds left.
unfoldable pub reserve_range : ℕ → ℕ → Pmm → Pmm
reserve_range zero f s = s
reserve_range (suc n) f s = reserve_range n (f + 1) (mark_used f s)

-- The body of the loop over the memory map for an entry of available RAM. The frame numbers are
-- cast to unsigned int, and so is their sum.
unfoldable pub release_entry : MmapEntry → Pmm → Pmm
release_entry e s =
    let start_frame = e.addr / frame_size % 2 ^ 32 in
    let frame_count = e.len / frame_size % 2 ^ 32 in
    release_range max_frames start_frame ((start_frame + frame_count) % 2 ^ 32)
      (record s { detected_ram_bytes = (s.detected_ram_bytes + e.len) % 2 ^ 64 })

unfoldable pub take_entry : MmapEntry → Pmm → Pmm
take_entry e s = if e.kind == 1 then release_entry e s else s

-- The `while` over the map in memory `mem`, from address `entry` up to `end`, on fuel.
unfoldable pub walk_map : (ℕ → MmapEntry) → ℕ → ℕ → ℕ → Pmm → Pmm
walk_map mem zero entry end s = s
walk_map mem (suc n) entry end s =
    let next = (entry + (mem entry).size + 4) % 2 ^ 32 in
    let rest = walk_map mem n next end (take_entry (mem entry) s) in
    if ltb entry end then rest else s

-- All bits set: the first loop of `pmm_init` over 32768 zeroed bits.
unfoldable pub set_all : ℕ → ℕ → Frames → Frames
set_all zero f m = m
set_all (suc n) f m = set_all n (f + 1) (bitmap_set m f)

-- The static variables before `pmm_init`: all zero.
abbrev pub boot : Pmm
boot = record {
  bitmap = λ _. 0;
  total_frames = 0;
  used_frames = 0;
  refcount = λ _. 0;
  detected_ram_bytes = 0;
}

-- `kernel_start` and `kernel_end` are the linker's symbols. The map is at most `map_length` bytes
-- long and every entry takes at least four, so that many rounds are enough where its end does not
-- wrap.
unfoldable pub pmm_init : (ℕ → MmapEntry) → ℕ → ℕ → ℕ → ℕ → Pmm → Pmm
pmm_init mem map_addr map_length kernel_start kernel_end s =
    let used : Pmm = record s {
      bitmap = set_all max_frames 0 s.bitmap;
      used_frames = max_frames;
    } in
    let mapped = walk_map mem map_length map_addr ((map_addr + map_length) % 2 ^ 32) used in
    let low = reserve_range 256 0 mapped in
    let kstart = kernel_start / frame_size in
    let kend = (kernel_end + frame_size - 1) % 2 ^ 32 / frame_size in
    let kernel = reserve_range (kend + 1 - kstart) kstart low in
    record kernel { total_frames = max_frames }
