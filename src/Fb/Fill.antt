-- ===== src/Fb/Fill.antt =====
-- kernel/fb.c: what the loops of `fb_fill_rect` leave in the framebuffer.
use kronked_os.Prelude.{ℕ, ◌+◌, ◌*◌, ◌≤◌, ◌<◌, ◌≡◌, Bool, not, ◌&&◌, ltb, if◌then◌else◌, ◌⊎◌, arith}
use kronked_os.Prelude.Int.{ℤ, pos, pos_part, ltb_ℤ, IsInt, int_of-IsInt, ◌+ℤ◌, ◌-ℤ◌}
use kronked_os.Prelude.Loops.{within, fill_rows_lem}
use kronked_os.Fb.{Framebuffer, fb_fill_rect, low_edge, cut, high_edge, rounds}

-- The pixel (p, q) is in the rectangle.
unfoldable pub in_rect : ℤ → ℤ → ℤ → ℤ → ℕ → ℕ → Bool
in_rect x y w h p q =
    (not (ltb_ℤ (pos p) x) && ltb_ℤ (pos p) (x +ℤ w))
    && (not (ltb_ℤ (pos q) y) && ltb_ℤ (pos q) (y +ℤ h))

-- A side from `x` to before `x1`, cut at the edges.
cut_lem :
    (x x1 : ℤ) (size p : ℕ)
    → IsInt (pos size)
    → within (pos_part (low_edge x)) (rounds (low_edge x) (cut x1 size)) p
      ≡ (ltb p size && (not (ltb_ℤ (pos p) x) && ltb_ℤ (pos p) x1))
unfolding low_edge cut rounds ◌-ℤ◌
cut_lem x x1 size p k = rw (int_of-IsInt (pos size) k) (ground arith)

-- What is drawn does not go beyond the right edge.
cut_fits :
    (x x1 : ℤ) (size : ℕ)
    → IsInt (pos size)
    → let n = rounds (low_edge x) (cut x1 size) in (n ≡ 0) ⊎ (pos_part (low_edge x) + n ≤ size)
unfolding low_edge cut rounds ◌-ℤ◌
cut_fits x x1 size k = rw (int_of-IsInt (pos size) k) (ground arith)

-- fb_fill_rect of a screen whose width and height are ints and whose rows are no longer than the
-- pitch, where neither x + w nor y + h overflows an int, gives the colour to exactly the pixels of the
-- rectangle that are on the screen, also where its sides lie off the screen, and leaves the rest of the
-- framebuffer's memory alone: p is the place in the row q of memory.
pub fb_fill_rect_lem :
    (x y w h : ℤ) (color : ℕ) (f : Framebuffer) (p q : ℕ)
    → IsInt (x +ℤ w)
    → IsInt (y +ℤ h)
    → IsInt (pos f.fb_width)
    → IsInt (pos f.fb_height)
    → f.fb_width ≤ f.fb_pitch_px
    → p < f.fb_pitch_px
    → (fb_fill_rect x y w h color f).fb (q * f.fb_pitch_px + p) ≡ (
        if (ltb p f.fb_width && ltb q f.fb_height) && in_rect x y w h p q
        then color
        else f.fb (q * f.fb_pitch_px + p))
unfolding fb_fill_rect high_edge in_rect
fb_fill_rect_lem x y w h color f p q iw ih width height fits hp =
    rw (int_of-IsInt (x +ℤ w) iw, int_of-IsInt (y +ℤ h) ih)
      (ground (
        arith,
        fill_rows_lem (rounds (low_edge y) (cut (y +ℤ h) f.fb_height)) (pos_part (low_edge y))
            (pos_part (low_edge x)) (rounds (low_edge x) (cut (x +ℤ w) f.fb_width)) f.fb_pitch_px
            color f.fb p q hp,
        cut_fits x (x +ℤ w) f.fb_width width,
        cut_lem x (x +ℤ w) f.fb_width p width,
        cut_lem y (y +ℤ h) f.fb_height q height,
      ))
