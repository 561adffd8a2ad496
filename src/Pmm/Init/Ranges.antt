-- ===== src/Pmm/Init/Ranges.antt =====
-- The loops of `pmm_init` (kernel/pmm.c) over ranges of frames: which bits they set and clear.
use kronked_os.Prelude.{
  ℕ, zero, suc, ◌+◌, ◌<◌, ◌≤◌, ◌≡◌, refl, true, false, not, ◌&&◌, ◌||◌, ◌==◌, ltb, leb,
  if◌then◌else◌, Bool-cases, arith, inl, inr, ◌∙◌,
}
use kronked_os.Pmm.Bitmap.{
  Frames, max_frames, bitmap_test, bitmap_set, IsBytes, count_used, test-set, test-clear,
  bitmap_set-IsBytes,
}
use kronked_os.Pmm.{Pmm, mark_used, mark_free}
use kronked_os.Pmm.Valid.{IsValid, mark_used-IsValid, mark_free-IsValid}
use kronked_os.Pmm.Init.{release_range, reserve_range, set_all}

-- A valid state in which no frame has a reference, as throughout `pmm_init`.
pub record IsFresh (s : Pmm) : Type 0 where
  pub valid : IsValid s
  pub no_refs : (f : ℕ) → s.refcount f ≡ 0

mark_used-refcount : (f : ℕ) (s : Pmm) → (mark_used f s).refcount ≡ s.refcount
unfolding mark_used
mark_used-refcount f s = ground arith

mark_free-refcount : (f : ℕ) (s : Pmm) → (mark_free f s).refcount ≡ s.refcount
unfolding mark_free
mark_free-refcount f s = ground arith

pub mark_used-IsFresh : {s : Pmm} (f : ℕ) → IsFresh s → IsFresh (mark_used f s)
mark_used-IsFresh {s} f h = record {
  valid = mark_used-IsValid f h.valid;
  no_refs = λ g. rw (mark_used-refcount f s) (h.no_refs g);
}

pub mark_free-IsFresh : {s : Pmm} (f : ℕ) → IsFresh s → IsFresh (mark_free f s)
mark_free-IsFresh {s} f h = record {
  valid = mark_free-IsValid f (h.no_refs f) h.valid;
  no_refs = λ g. rw (mark_free-refcount f s) (h.no_refs g);
}

test-mark_used :
    {s : Pmm} (f g : ℕ)
    → IsFresh s
    → g < max_frames
    → bitmap_test (mark_used f s).bitmap g ≡ (if f == g then true else bitmap_test s.bitmap g)
unfolding mark_used
test-mark_used {s} f g h lt = ground (arith, test-set s.bitmap f g h.valid.bytes)

test-mark_free :
    {s : Pmm} (f g : ℕ)
    → IsFresh s
    → g < max_frames
    → bitmap_test (mark_free f s).bitmap g ≡ (if f == g then false else bitmap_test s.bitmap g)
unfolding mark_free
test-mark_free {s} f g h lt = ground (arith, test-clear s.bitmap f g h.valid.bytes)

pub reserve_range-IsFresh : (n f : ℕ) {s : Pmm} → IsFresh s → IsFresh (reserve_range n f s)
unfolding reserve_range
reserve_range-IsFresh zero f h = h
reserve_range-IsFresh (suc n) f h = reserve_range-IsFresh n (f + 1) (mark_used-IsFresh f h)

-- The frames `f`, ..., `f + n - 1` are in use, the others as before.
pub test-reserve_range :
    (n f g : ℕ) {s : Pmm}
    → IsFresh s
    → g < max_frames
    → bitmap_test (reserve_range n f s).bitmap g
      ≡ ((leb f g && ltb g (f + n)) || bitmap_test s.bitmap g)
unfolding reserve_range
test-reserve_range zero f g h lt = ground arith
test-reserve_range (suc n) f g {s} h lt =
    ground
      (arith, test-reserve_range n (f + 1) g (mark_used-IsFresh f h) lt, test-mark_used f g h lt)

pub release_range-IsFresh :
    (n f stop : ℕ) {s : Pmm} → IsFresh s → IsFresh (release_range n f stop s)
unfolding release_range
release_range-IsFresh zero f stop h = h
release_range-IsFresh (suc n) f stop h = elim (Bool-cases (ltb f stop && ltb f max_frames)) [
  | inl go ↦ rw go (release_range-IsFresh n (f + 1) stop (mark_free-IsFresh f h))
  | inr done ↦ rw done h
]

-- The frames `f`, ..., `stop - 1` are free, the others as before, where the fuel reaches the end of
-- the bitmap.
pub test-release_range :
    (n f stop g : ℕ) {s : Pmm}
    → IsFresh s
    → g < max_frames
    → max_frames ≤ f + n
    → bitmap_test (release_range n f stop s).bitmap g
      ≡ (not (leb f g && ltb g stop) && bitmap_test s.bitmap g)
unfolding release_range
test-release_range zero f stop g h lt fuel = ground arith
test-release_range (suc n) f stop g {s} h lt fuel =
    elim (Bool-cases (ltb f stop && ltb f max_frames)) [
      | inl go ↦ rw go (
          test-release_range n (f + 1) stop g (mark_free-IsFresh f h) lt (omega arith)
          ∙ ground (arith, go, test-mark_free f g h lt))
      | inr done ↦ rw done (ground (arith, done))
    ]

pub set_all-IsBytes : (n f : ℕ) (m : Frames) → IsBytes m → IsBytes (set_all n f m)
unfolding set_all
set_all-IsBytes zero f m h = h
set_all-IsBytes (suc n) f m h =
    set_all-IsBytes n (f + 1) (bitmap_set m f) (bitmap_set-IsBytes m f h)

pub test-set_all :
    (n f g : ℕ) (m : Frames)
    → IsBytes m
    → bitmap_test (set_all n f m) g ≡ ((leb f g && ltb g (f + n)) || bitmap_test m g)
unfolding set_all
test-set_all zero f g m h = ground arith
test-set_all (suc n) f g m h =
    ground (
      arith,
      test-set_all n (f + 1) g (bitmap_set m f) (bitmap_set-IsBytes m f h),
      test-set m f g h,
    )

-- `n` set bits count `n`.
pub count_used_full :
    (n : ℕ) (m : Frames) → ((g : ℕ) → g < n → bitmap_test m g ≡ true) → count_used n m ≡ n
unfolding count_used
count_used_full zero m h = refl
count_used_full (suc n) m h =
    ground (arith, h n (omega arith), count_used_full n m (λ g lt. h g (omega arith)))
