-- ===== src/Pmm/Bitmap.antt =====
-- The frame bitmap of kernel/pmm.c: one bit for each frame, eight to a byte.
use kronked_os.Prelude.{
  ℕ, zero, suc, ◌+◌, ◌/◌, ◌%◌, ◌<◌, ◌≤◌, ◌≡◌, refl, Bool, true, false, ◌==◌, if◌then◌else◌, update,
  ltb, arith,
}
use kronked_os.Prelude.Bits.{
  has_bit, with_bit, without_bit, has_bit-with_bit, has_bit-without_bit, with_bit-lt,
  without_bit-lt,
}

-- `MAX_FRAMES`: 128 MiB in frames of 4 KiB.
abbrev pub max_frames : ℕ
max_frames = 32768

-- `frame_bitmap`
abbrev pub Frames : Type 0
Frames = ℕ → ℕ

unfoldable pub bitmap_set : Frames → ℕ → Frames
bitmap_set m frame = update m (frame / 8) (with_bit (m (frame / 8)) (frame % 8))

unfoldable pub bitmap_clear : Frames → ℕ → Frames
bitmap_clear m frame = update m (frame / 8) (without_bit (m (frame / 8)) (frame % 8))

unfoldable pub bitmap_test : Frames → ℕ → Bool
bitmap_test m frame = has_bit (m (frame / 8)) (frame % 8)

-- Every entry is an unsigned char.
abbrev pub IsBytes : Frames → Type 0
IsBytes m = (i : ℕ) → m i < 256

pub bitmap_set-IsBytes : (m : Frames) (f : ℕ) → IsBytes m → IsBytes (bitmap_set m f)
unfolding bitmap_set
bitmap_set-IsBytes m f h i =
    ground (arith, h i, with_bit-lt (m (f / 8)) (f % 8) (h (f / 8)) (omega arith))

pub bitmap_clear-IsBytes : (m : Frames) (f : ℕ) → IsBytes m → IsBytes (bitmap_clear m f)
unfolding bitmap_clear
bitmap_clear-IsBytes m f h i =
    ground (arith, h i, without_bit-lt (m (f / 8)) (f % 8) (h (f / 8)) (omega arith))

pub test-set :
    (m : Frames) (f g : ℕ)
    → IsBytes m
    → bitmap_test (bitmap_set m f) g ≡ (if f == g then true else bitmap_test m g)
unfolding bitmap_set bitmap_test
test-set m f g h =
    ground
      (arith, has_bit-with_bit (m (f / 8)) (f % 8) (g % 8) (h (f / 8)) (omega arith) (omega arith))

pub test-clear :
    (m : Frames) (f g : ℕ)
    → IsBytes m
    → bitmap_test (bitmap_clear m f) g ≡ (if f == g then false else bitmap_test m g)
unfolding bitmap_clear bitmap_test
test-clear m f g h =
    ground (
      arith,
      has_bit-without_bit (m (f / 8)) (f % 8) (g % 8) (h (f / 8)) (omega arith) (omega arith),
    )

-- The number of set bits below `n`.
unfoldable pub count_used : ℕ → Frames → ℕ
count_used zero m = 0
count_used (suc n) m = count_used n m + (if bitmap_test m n then 1 else 0)

pub count_used-le : (n : ℕ) (m : Frames) → count_used n m ≤ n
unfolding count_used
count_used-le zero m = omega arith
count_used-le (suc n) m = ground (arith, count_used-le n m)

-- A change of one bit from clear to set adds one.
pub count_used-grow :
    (n f : ℕ) (m m' : Frames)
    → ((g : ℕ) → bitmap_test m' g ≡ (if f == g then true else bitmap_test m g))
    → bitmap_test m f ≡ false
    → count_used n m' ≡ count_used n m + (if ltb f n then 1 else 0)
unfolding count_used
count_used-grow zero f m m' h e = ground arith
count_used-grow (suc n) f m m' h e = ground (arith, h n, count_used-grow n f m m' h e)

-- A change of one bit from set to clear takes one away.
pub count_used-shrink :
    (n f : ℕ) (m m' : Frames)
    → ((g : ℕ) → bitmap_test m' g ≡ (if f == g then false else bitmap_test m g))
    → bitmap_test m f ≡ true
    → count_used n m' + (if ltb f n then 1 else 0) ≡ count_used n m
unfolding count_used
count_used-shrink zero f m m' h e = ground arith
count_used-shrink (suc n) f m m' h e = ground (arith, h n, count_used-shrink n f m m' h e)

pub count_used-ext :
    (n : ℕ) (m m' : Frames)
    → ((g : ℕ) → bitmap_test m g ≡ bitmap_test m' g)
    → count_used n m ≡ count_used n m'
unfolding count_used
count_used-ext zero m m' h = refl
count_used-ext (suc n) m m' h = ground (arith, h n, count_used-ext n m m' h)
