-- ===== src/Snake/Tests.antt =====
-- The theorem on kernel/snake.c at the snake of the start.
use kronked_os.Prelude.{refl, inl, [], ◌∷◌, arith}
use kronked_os.Samples.{console}
use kronked_os.Snake.{Game, right, same_point, collides, step}
use kronked_os.Snake.Start.{start_body}
use kronked_os.Snake.Valid.{Valid, GoesOn, step-Valid}

abbrev game : Game
game = record {
  body = start_body;
  direction = right;
  score = 0;
  food = record { row = 11; col = 39 };
  rng_state = 12345;
  screen = console;
}

game-Valid : Valid game
unfolding collides same_point
game-Valid = record {
  apart = (
    (omega arith, omega arith, omega arith, omega arith),
    refl,
    (
      (omega arith, omega arith, omega arith, omega arith),
      refl,
      ((omega arith, omega arith, omega arith, omega arith), refl, refl),
    ),
  );
  alive = omega arith;
  fits = omega arith;
  food_in = (omega arith, omega arith, omega arith, omega arith);
  food_free = inl refl;
}

step-Valid_example : GoesOn (step 10 (b'w' ∷ b's' ∷ []) game)
step-Valid_example = step-Valid 10 (b'w' ∷ b's' ∷ []) game game-Valid
