-- ===== src/Snake/Start.antt =====
-- kernel/snake.c: what `snake_run` does before its loop and behind it.
use kronked_os.Prelude.{
  ℕ, zero, suc, ◌+◌, ◌-◌, ◌*◌, ◌/◌, ◌%◌, ◌^◌, true, false, Option, none, some, List, [], ◌∷◌,
}
use kronked_os.Prelude.Int.{pos}
use kronked_os.Prelude.Text.{text}
use kronked_os.Task.{Tasks}
use kronked_os.Vga.{Vga}
use kronked_os.Vga.Put.{vga_put_at, vga_clear, vga_set_cursor_pos, vga_write}
use kronked_os.Snake.{
  Point, Game, right, field_top, field_bottom, field_left, field_right, rng_seed, place_food, put,
  draw_score,
}

-- Dark grey is 8.
unfoldable pub border_rows : ℕ → ℕ → Vga → Vga
border_rows zero c v = v
border_rows (suc n) c v =
    border_rows n (c + 1)
      (vga_put_at (pos (field_bottom + 1)) (pos c) b'#' 8 (vga_put_at (pos 1) (pos c) b'#' 8 v))

unfoldable pub border_cols : ℕ → ℕ → Vga → Vga
border_cols zero r v = v
border_cols (suc n) r v =
    border_cols n (r + 1)
      (vga_put_at (pos r) (pos (field_right + 1)) b'#' 8 (vga_put_at (pos r) (pos 0) b'#' 8 v))

unfoldable pub draw_border : Vga → Vga
unfolding border_rows border_cols
draw_border v = border_cols 23 1 (border_rows 80 0 v)

abbrev pub mid_row : ℕ
mid_row = (field_top + field_bottom) / 2

abbrev pub mid_col : ℕ
mid_col = (field_left + field_right) / 2

abbrev pub start_body : List Point
start_body =
    record { row = mid_row; col = mid_col }
    ∷ record { row = mid_row; col = mid_col - 1 }
    ∷ record { row = mid_row; col = mid_col - 2 }
    ∷ []

-- The game, its food placed, before the food and the score are drawn.
unfoldable pub with_food : Vga → Option (Point × ℕ) → Option Game
with_food v none = none
with_food v (some (food, state)) = some (record {
  body = start_body;
  direction = right;
  score = 0;
  food = food;
  rng_state = state;
  screen = v;
})

unfoldable pub draw_start : Vga → Vga
unfolding draw_border put
draw_start v =
    put (record { row = mid_row; col = mid_col - 2 }) b'o' 10
      (put (record { row = mid_row; col = mid_col - 1 }) b'o' 10
        (put (record { row = mid_row; col = mid_col }) b'@' 10 (draw_border v)))

-- `ticks` is the value of timer_ticks.
unfoldable pub start : ℕ → ℕ → Vga → Option Game
unfolding with_food draw_start
start rounds ticks v =
    let seed = rng_seed ((ticks * 2654435761 + 1) % 2 ^ 32) in
    with_food (draw_start v) (place_food rounds start_body seed)

unfoldable pub draw_food : Tasks → Game → Tasks × Game
draw_food s g =
    let scored = draw_score 0 true (put g.food b'*' 14 g.screen) in
    let (s', v) =
      vga_write (text "Controls: w a s d to move, q to quit.")
        (vga_set_cursor_pos 24 0 (s, scored)) in
    (s', record g { screen = v })

unfoldable pub snake_start : ℕ → ℕ → Tasks × Vga → Option (Tasks × Game)
unfolding start draw_food
snake_start rounds ticks con =
    let (s, v) = vga_clear con in
    elim (start rounds ticks v) [ none ↦ none | some g ↦ some (draw_food s g) ]

-- The end of the game, up to the wait for a key, and what follows it.
unfoldable pub snake_over : Tasks → Game → Tasks × Vga
snake_over s g = vga_set_cursor_pos 24 0 (s, draw_score g.score false g.screen)

unfoldable pub snake_leave : Tasks × Vga → Tasks × Vga
snake_leave con = vga_clear con
