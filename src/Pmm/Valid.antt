-- ===== src/Pmm/Valid.antt =====
-- The invariant of the static variables of kernel/pmm.c, and the operations that keep it.
use kronked_os.Prelude.{
  ℕ, ◌-◌, ◌/◌, ◌^◌, ◌<◌, ◌≤◌, ◌≡◌, ◌&&◌, true, false, ◌==◌, ltb, leb, inl, inr, Bool-cases, update,
  arith,
}
use kronked_os.Pmm.Bitmap.{
  max_frames, bitmap_set, bitmap_clear, bitmap_test, IsBytes, count_used, bitmap_set-IsBytes,
  bitmap_clear-IsBytes, test-set, test-clear, count_used-le, count_used-grow, count_used-shrink,
}
use kronked_os.Pmm.{
  Pmm, frame_size, mark_used, mark_free, take_frame, drop_ref, pmm_free_frame, pmm_frame_addref,
}

pub record IsValid (s : Pmm) : Type 0 where
  pub bytes : IsBytes s.bitmap
  pub counted : s.used_frames ≡ count_used max_frames s.bitmap
  pub held : (f : ℕ) → f < max_frames → 0 < s.refcount f → bitmap_test s.bitmap f ≡ true
  pub narrow : (f : ℕ) → s.refcount f < 2 ^ 8

pub mark_used-IsValid : {s : Pmm} (f : ℕ) → IsValid s → IsValid (mark_used f s)
unfolding mark_used
mark_used-IsValid {s} f v = elim (Bool-cases (leb max_frames f)) [
  | inl out ↦ rw out v
  | inr within ↦ elim (Bool-cases (bitmap_test s.bitmap f)) [
    | inl old ↦ rw (within, old) v
    | inr new ↦
        rw (within, new)
          (record {
            bytes = bitmap_set-IsBytes s.bitmap f v.bytes;
            counted = ground (
              arith,
              count_used-le max_frames s.bitmap,
              v.counted,
              count_used-grow max_frames f s.bitmap (bitmap_set s.bitmap f)
                  (λ g. test-set s.bitmap f g v.bytes) new,
            );
            held = λ g lt h. ground (arith, test-set s.bitmap f g v.bytes, v.held g lt h);
            narrow = v.narrow;
          })
  ]
]

pub mark_free-IsValid : {s : Pmm} (f : ℕ) → s.refcount f ≡ 0 → IsValid s → IsValid (mark_free f s)
unfolding mark_free
mark_free-IsValid {s} f e v = elim (Bool-cases (leb max_frames f)) [
  | inl out ↦ rw out v
  | inr within ↦ elim (Bool-cases (bitmap_test s.bitmap f)) [
    | inr clear ↦ rw (within, clear) v
    | inl old ↦
        rw (within, old)
          (record {
            bytes = bitmap_clear-IsBytes s.bitmap f v.bytes;
            counted = ground (
              arith,
              count_used-le max_frames s.bitmap,
              v.counted,
              count_used-shrink max_frames f s.bitmap (bitmap_clear s.bitmap f)
                  (λ g. test-clear s.bitmap f g v.bytes) old,
            );
            held = λ g lt h. ground (arith, e, test-clear s.bitmap f g v.bytes, v.held g lt h);
            narrow = v.narrow;
          })
  ]
]

-- Claiming a clear frame.
pub take_frame-IsValid :
    {s : Pmm} (f : ℕ)
    → f < max_frames
    → bitmap_test s.bitmap f ≡ false
    → IsValid s
    → IsValid (take_frame f s)
unfolding take_frame
take_frame-IsValid {s} f lt new v = record {
  bytes = bitmap_set-IsBytes s.bitmap f v.bytes;
  counted = ground (
    arith,
    count_used-le max_frames s.bitmap,
    v.counted,
    count_used-grow max_frames f s.bitmap (bitmap_set s.bitmap f)
        (λ g. test-set s.bitmap f g v.bytes) new,
  );
  held = λ g lt' h. ground (arith, test-set s.bitmap f g v.bytes, v.held g lt');
  narrow = λ g. ground (arith, v.narrow g);
}

-- A count may fall.
lower-IsValid :
    {s : Pmm} (f n : ℕ)
    → n ≤ s.refcount f
    → IsValid s
    → IsValid (record s { refcount = update s.refcount f n })
lower-IsValid {s} f n le v = record {
  bytes = v.bytes;
  counted = v.counted;
  held = λ g lt h. ground (arith, v.held g lt, v.held f);
  narrow = λ g. ground (arith, v.narrow g, v.narrow f);
}

pub drop_ref-IsValid : {s : Pmm} (f : ℕ) → IsValid s → IsValid (drop_ref f s)
unfolding drop_ref
drop_ref-IsValid {s} f v =
    let v' = lower-IsValid f (s.refcount f - 1) (omega arith) v in
    elim (Bool-cases (s.refcount f - 1 == 0)) [
      | inl last ↦ rw last (mark_free-IsValid f (ground arith) v')
      | inr more ↦ rw more v'
    ]

pub pmm_free_frame-IsValid : {s : Pmm} (a : ℕ) → IsValid s → IsValid (pmm_free_frame a s)
unfolding pmm_free_frame
pmm_free_frame-IsValid {s} a v =
    elim (Bool-cases (ltb (a / frame_size) max_frames && ltb 0 (s.refcount (a / frame_size)))) [
      | inl go ↦ rw go (drop_ref-IsValid (a / frame_size) v)
      | inr stop ↦ rw stop v
    ]

-- A reference is added to a frame in use.
pub pmm_frame_addref-IsValid :
    {s : Pmm} (a : ℕ)
    → bitmap_test s.bitmap (a / frame_size) ≡ true
    → IsValid s
    → IsValid (pmm_frame_addref a s)
unfolding pmm_frame_addref
pmm_frame_addref-IsValid {s} a u v = elim (Bool-cases (ltb (a / frame_size) max_frames)) [
  | inl within ↦ rw within (record {
    bytes = v.bytes;
    counted = v.counted;
    held = λ g lt h. ground (arith, u, v.held g lt);
    narrow = λ g. ground (arith, v.narrow g);
  })
  | inr out ↦ rw out v
]
