-- ===== src/Pmm/Refs.antt =====
-- `pmm_free_frame` and `pmm_frame_addref` of kernel/pmm.c: the life of a shared frame.
use kronked_os.Prelude.{ℕ, ◌-◌, ◌/◌, ◌<◌, ◌≤◌, ◌≡◌, ◌≢◌, true, false, arith, inl, inr, ◌∙◌, sym}
use kronked_os.Pmm.Bitmap.{max_frames, bitmap_test, test-clear, count_used-ext}
use kronked_os.Pmm.{
  Pmm, frame_size, mark_free, drop_ref, pmm_free_frame, pmm_frame_addref, pmm_frame_refcount,
  pmm_alloc_frame,
}
use kronked_os.Pmm.Valid.{IsValid, pmm_free_frame-IsValid}
use kronked_os.Pmm.Alloc.{Claimed, pmm_alloc_frame_lem}

-- Two states that mark the same frames, with the same counts.
pub record SameFrames (s t : Pmm) : Type 0 where
  pub marks : (g : ℕ) → bitmap_test s.bitmap g ≡ bitmap_test t.bitmap g
  pub counts : (g : ℕ) → s.refcount g ≡ t.refcount g
  pub used : s.used_frames ≡ t.used_frames

-- What `pmm_free_frame` does to a frame, by the count that it finds.
pub record Released (s : Pmm) (f : ℕ) (s' : Pmm) : Type 0 where
  pub count : s'.refcount f ≡ s.refcount f - 1
  pub shared : 1 < s.refcount f → bitmap_test s'.bitmap f ≡ bitmap_test s.bitmap f
  pub last : s.refcount f ≡ 1 → bitmap_test s'.bitmap f ≡ false
  pub untouched : s.refcount f ≡ 0 → s' ≡ s
  pub others :
      (g : ℕ)
      → f ≢ g
      → (bitmap_test s'.bitmap g ≡ bitmap_test s.bitmap g) × (s'.refcount g ≡ s.refcount g)

module _ {s : Pmm} (v : IsValid s) where
  -- `pmm_free_frame` takes one reference from a tracked frame: the last one frees the frame, an
  -- earlier one leaves it in use, none changes nothing, and no other frame is touched.
  pub pmm_free_frame-Released :
      (a : ℕ) → a / frame_size < max_frames → Released s (a / frame_size) (pmm_free_frame a s)
  unfolding pmm_free_frame drop_ref mark_free
  pmm_free_frame-Released a lt = record {
    count = ground arith;
    shared = λ h. ground arith;
    last =
        λ h. ground (arith, test-clear s.bitmap (a / 4096) (a / 4096) v.bytes, v.held (a / 4096));
    untouched = λ h. ground arith;
    others = λ g ne. ground (arith, test-clear s.bitmap (a / 4096) g v.bytes);
  }

  -- A reference that is added and dropped again leaves every mark, every count and the
  -- number of used frames as they were, on a frame
  -- with at least one and fewer than 255 references.
  pub free-addref :
      (a : ℕ)
      → a / frame_size < max_frames
      → 0 < s.refcount (a / frame_size)
      → s.refcount (a / frame_size) < 255
      → SameFrames (pmm_free_frame a (pmm_frame_addref a s)) s
  unfolding pmm_free_frame pmm_frame_addref drop_ref mark_free
  free-addref a lt pos small = record {
    marks = λ g. ground arith;
    counts = λ g. ground arith;
    used = ground arith;
  }

-- Freeing the frame that `s'` claimed.
release-Claimed :
    {s s' : Pmm} {f : ℕ} (a : ℕ)
    → IsValid s
    → a / frame_size ≡ f
    → f < max_frames
    → Claimed s f s'
    → SameFrames (pmm_free_frame a s') s
release-Claimed {s} {s'} {f} a v e lt c =
    let r = pmm_free_frame-Released c.valid a (rw e lt) in
    let same : (g : ℕ) → bitmap_test (pmm_free_frame a s').bitmap g ≡ bitmap_test s.bitmap g =
      λ g. ground (arith, e, c.was_free, c.one_ref, r.last, r.others g, c.marks g) in
    record {
      marks = same;
      counts = λ g. ground (arith, e, c.unshared, c.one_ref, r.count, r.others g, c.others g);
      used =
          (pmm_free_frame-IsValid a c.valid).counted
          ∙ count_used-ext max_frames (pmm_free_frame a s').bitmap s.bitmap same
          ∙ sym v.counted;
    }

-- Where `pmm_alloc_frame` succeeds, freeing the frame that it returned restores every mark, every
-- count and the number of used frames.
pub free-alloc :
    {s : Pmm}
    → IsValid s
    → bitmap_test s.bitmap 0 ≡ true
    → (pmm_alloc_frame s).0 ≢ 0
    → SameFrames (pmm_free_frame (pmm_alloc_frame s).0 (pmm_alloc_frame s).1) s
free-alloc {s} v z ne = elim (pmm_alloc_frame_lem v z) [
  | inl (f, ea, _, lt, c) ↦ release-Claimed (pmm_alloc_frame s).0 v (omega arith) lt c
  | inr (ea, _, _) ↦ absurd (ne ea)
]

-- At an address outside the tracked 128 MiB, `pmm_free_frame` and `pmm_frame_addref` change nothing
-- and `pmm_frame_refcount` is 0.
pub untracked :
    (s : Pmm) (a : ℕ)
    → max_frames ≤ a / frame_size
    → (pmm_free_frame a s ≡ s) × (pmm_frame_addref a s ≡ s) × (pmm_frame_refcount a s ≡ 0)
unfolding pmm_free_frame pmm_frame_addref pmm_frame_refcount
untracked s a h = ground arith

-- The 256th reference to a tracked frame makes its count 0, and `pmm_free_frame` of that frame then
-- changes nothing.
pub addref_wraps :
    (s : Pmm) (a : ℕ)
    → a / frame_size < max_frames
    → s.refcount (a / frame_size) ≡ 255
    → (pmm_frame_refcount a (pmm_frame_addref a s) ≡ 0)
      × (pmm_free_frame a (pmm_frame_addref a s) ≡ pmm_frame_addref a s)
unfolding pmm_free_frame pmm_frame_addref pmm_frame_refcount drop_ref
addref_wraps s a lt e = ground arith
