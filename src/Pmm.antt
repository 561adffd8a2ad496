-- ===== src/Pmm.antt =====
-- kernel/pmm.c: the frame bitmap, the reference counts and the counters, with every function that
-- reads or writes them. The spinlock brackets are those of `Spinlock`; on one core they only keep
-- interrupts out, so each call is one step here.
pub mod Bitmap
pub mod Valid
pub mod Alloc
pub mod Refs
pub mod Init
pub mod Tests
use Bitmap.{max_frames, Frames, bitmap_set, bitmap_clear, bitmap_test}
use kronked_os.Prelude.{
  ℕ, zero, suc, ◌+◌, ◌-◌, ◌*◌, ◌/◌, ◌%◌, ◌^◌, Bool, not, ltb, leb, ◌==◌, if◌then◌else◌, update,
  ◌&&◌,
}

-- The static variables of pmm.c.
pub record Pmm : Type 0 where
  pub bitmap : Frames
  pub total_frames : ℕ
  pub used_frames : ℕ
  pub refcount : ℕ → ℕ
  pub detected_ram_bytes : ℕ

-- `FRAME_SIZE`
abbrev pub frame_size : ℕ
frame_size = 4096

unfoldable pub mark_used : ℕ → Pmm → Pmm
mark_used frame s =
    if leb max_frames frame
    then s
    else if not (bitmap_test s.bitmap frame)
    then record s { bitmap = bitmap_set s.bitmap frame; used_frames = (s.used_frames + 1) % 2 ^ 32 }
    else s

unfoldable pub mark_free : ℕ → Pmm → Pmm
mark_free frame s =
    if leb max_frames frame
    then s
    else if bitmap_test s.bitmap frame
    then record s {
      bitmap = bitmap_clear s.bitmap frame;
      used_frames = (s.used_frames + 2 ^ 32 - 1) % 2 ^ 32;
    }
    else s

-- The body of the loop of `pmm_alloc_frame` once a clear bit is found at `i`.
unfoldable pub take_frame : ℕ → Pmm → Pmm
take_frame i s = record s {
  bitmap = bitmap_set s.bitmap i;
  used_frames = (s.used_frames + 1) % 2 ^ 32;
  refcount = update s.refcount i 1;
}

-- The loop from index `i` with `rounds` indices left; the address is 0 when none is free.
unfoldable pub alloc_scan : ℕ → ℕ → Pmm → ℕ × Pmm
alloc_scan zero i s = (0, s)
alloc_scan (suc rounds) i s =
    let rest = alloc_scan rounds (i + 1) s in
    if not (bitmap_test s.bitmap i) then (i * frame_size, take_frame i s) else rest

unfoldable pub pmm_alloc_frame : Pmm → ℕ × Pmm
pmm_alloc_frame s = alloc_scan max_frames 0 s

-- `frame_refcount[frame]--` runs only at a positive count.
unfoldable pub drop_ref : ℕ → Pmm → Pmm
drop_ref frame s =
    let s' : Pmm = record s { refcount = update s.refcount frame (s.refcount frame - 1) } in
    if s.refcount frame - 1 == 0 then mark_free frame s' else s'

unfoldable pub pmm_free_frame : ℕ → Pmm → Pmm
pmm_free_frame phys_addr s =
    let frame = phys_addr / frame_size in
    if ltb frame max_frames && ltb 0 (s.refcount frame) then drop_ref frame s else s

-- The count is an unsigned char.
unfoldable pub pmm_frame_addref : ℕ → Pmm → Pmm
pmm_frame_addref phys_addr s =
    let frame = phys_addr / frame_size in
    if ltb frame max_frames
    then record s { refcount = update s.refcount frame ((s.refcount frame + 1) % 2 ^ 8) }
    else s

unfoldable pub pmm_frame_refcount : ℕ → Pmm → ℕ
pmm_frame_refcount phys_addr s =
    let frame = phys_addr / frame_size in if leb max_frames frame then 0 else s.refcount frame

unfoldable pub pmm_free_frame_count : Pmm → ℕ
pmm_free_frame_count s = (s.total_frames + 2 ^ 32 - s.used_frames) % 2 ^ 32

unfoldable pub pmm_detected_ram_kib : Pmm → ℕ
pmm_detected_ram_kib s = s.detected_ram_bytes / 1024 % 2 ^ 32
