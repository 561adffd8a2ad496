-- ===== src/Fb/Tests.antt =====
-- The theorem on kernel/fb.c at a screen of 4 by 3 pixels.
use kronked_os.Prelude.{◌+◌, ◌*◌, ◌≡◌, arith}
use kronked_os.Prelude.Int.{pos, negsuc, ◌+ℤ◌}
use kronked_os.Samples.{screen}
use kronked_os.Fb.{fb_fill_rect}
use kronked_os.Fb.Fill.{in_rect, fb_fill_rect_lem}

-- The rectangle begins left of the screen and ends below it.
fb_fill_rect_lem_example :
    (fb_fill_rect (negsuc 0) (pos 1) (pos 3) (pos 5) 7 screen).fb (2 * 5 + 1) ≡ 7
unfolding in_rect ◌+ℤ◌
fb_fill_rect_lem_example =
    fb_fill_rect_lem (negsuc 0) (pos 1) (pos 3) (pos 5) 7 screen 1 2 (omega arith, omega arith)
      (omega arith, omega arith) (omega arith, omega arith) (omega arith, omega arith) (omega arith)
      (omega arith)
