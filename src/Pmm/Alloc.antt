-- ===== src/Pmm/Alloc.antt =====
-- `pmm_alloc_frame` of kernel/pmm.c: which frame it hands out, and what it leaves alone.
use kronked_os.Prelude.{
  ℕ, zero, suc, ◌+◌, ◌*◌, ◌<◌, ◌≤◌, ◌≡◌, refl, ◌≢◌, ◌⊎◌, inl, inr, true, false, ◌==◌, if◌then◌else◌,
  Bool-cases, arith,
}
use kronked_os.Pmm.Bitmap.{max_frames, bitmap_test, test-set}
use kronked_os.Pmm.{Pmm, frame_size, take_frame, alloc_scan, pmm_alloc_frame}
use kronked_os.Pmm.Valid.{IsValid, take_frame-IsValid}

-- The result of a scan that starts at index `i`: the lowest clear frame from there on, or none.
pub data Scanned (s : Pmm) (i : ℕ) : ℕ × Pmm → Type 0 where
  found :
      (f : ℕ)
      → i ≤ f
      → f < max_frames
      → bitmap_test s.bitmap f ≡ false
      → ((g : ℕ) → i ≤ g → g < f → bitmap_test s.bitmap g ≡ true)
      → Scanned s i (f * frame_size, take_frame f s)
  full : ((g : ℕ) → i ≤ g → g < max_frames → bitmap_test s.bitmap g ≡ true) → Scanned s i (0, s)

earlier :
    {s : Pmm} {i : ℕ} {r : ℕ × Pmm}
    → bitmap_test s.bitmap i ≡ true
    → Scanned s (i + 1) r
    → Scanned s i r
earlier {s} {i} e (found f le lt clear below) =
    found f (omega arith) lt clear (λ g h k. ground (arith, e, below g))
earlier {s} {i} e (full all) = full (λ g h k. ground (arith, e, all g))

alloc_scan-Scanned : (n i : ℕ) (s : Pmm) → i + n ≡ max_frames → Scanned s i (alloc_scan n i s)
unfolding alloc_scan
alloc_scan-Scanned zero i s e = full (λ g h k. absurd (omega arith))
alloc_scan-Scanned (suc n) i s e = elim (Bool-cases (bitmap_test s.bitmap i)) [
  | inl used ↦ rw used (earlier used (alloc_scan-Scanned n (i + 1) s (omega arith)))
  | inr clear ↦ rw clear (found i (omega arith) (omega arith) clear (λ g h k. absurd (omega arith)))
]

pub pmm_alloc_frame-Scanned : (s : Pmm) → Scanned s 0 (pmm_alloc_frame s)
unfolding pmm_alloc_frame
pmm_alloc_frame-Scanned s = alloc_scan-Scanned max_frames 0 s (omega arith)

-- What a client of `pmm_alloc_frame` may rely on, for the state before and the result.
pub record Claimed (s : Pmm) (f : ℕ) (s' : Pmm) : Type 0 where
  pub lowest : (g : ℕ) → g < f → bitmap_test s.bitmap g ≡ true
  pub was_free : bitmap_test s.bitmap f ≡ false
  pub unshared : s.refcount f ≡ 0
  pub one_ref : s'.refcount f ≡ 1
  pub marks : (g : ℕ) → bitmap_test s'.bitmap g ≡ (if f == g then true else bitmap_test s.bitmap g)
  pub others : (g : ℕ) → f ≢ g → s'.refcount g ≡ s.refcount g
  pub valid : IsValid s'

pub take_frame-Claimed :
    {s : Pmm} (f : ℕ)
    → IsValid s
    → f < max_frames
    → bitmap_test s.bitmap f ≡ false
    → ((g : ℕ) → g < f → bitmap_test s.bitmap g ≡ true)
    → Claimed s f (take_frame f s)
unfolding take_frame
take_frame-Claimed {s} f v lt clear below = record {
  lowest = below;
  was_free = clear;
  unshared = ground (arith, v.held f lt);
  one_ref = ground arith;
  marks = λ g. test-set s.bitmap f g v.bytes;
  others = λ g ne. ground arith;
  valid = take_frame-IsValid f lt clear v;
}

-- Where frame 0 is in use, the outcome is one of two: a page-aligned nonzero address below 128 MiB
-- whose frame was the lowest free one, or address 0 with nothing changed and no frame free.
abbrev pub AllocOutcome : Pmm → ℕ × Pmm → Type 0
AllocOutcome s (a, s') =
    ((f : ℕ) × (a ≡ f * frame_size) × (a ≢ 0) × (f < max_frames) × Claimed s f s')
    ⊎ ((a ≡ 0) × (s' ≡ s) × ((g : ℕ) → g < max_frames → bitmap_test s.bitmap g ≡ true))

outcome :
    {s : Pmm} {r : ℕ × Pmm}
    → IsValid s
    → bitmap_test s.bitmap 0 ≡ true
    → Scanned s 0 r
    → AllocOutcome s r
outcome v z (found f le lt clear below) =
    inl
      (f, refl, ground arith, lt, take_frame-Claimed f v lt clear (λ g h. below g (omega arith) h))
outcome v z (full all) = inr (refl, refl, λ g h. all g (omega arith) h)

-- `pmm_alloc_frame`, in a valid state with frame 0 in use, either returns the nonzero address of
-- the lowest free frame, which had no reference and now has one, marks that frame alone and keeps
-- the state valid, or returns 0 with the state unchanged and every frame in use.
pub pmm_alloc_frame_lem :
    {s : Pmm} → IsValid s → bitmap_test s.bitmap 0 ≡ true → AllocOutcome s (pmm_alloc_frame s)
pmm_alloc_frame_lem {s} v z = outcome v z (pmm_alloc_frame-Scanned s)
