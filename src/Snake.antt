-- ===== src/Snake.antt =====
-- kernel/snake.c: the game. `body` holds the cells in use, the head first; the keys of a step are those
-- that the wait for the next tick finds, and the timer is what ends it.
pub mod Start
pub mod Valid
mod Tests
use kronked_os.Prelude.{
  ℕ, zero, suc, ◌+◌, ◌-◌, ◌*◌, ◌/◌, ◌%◌, ◌^◌, Bool, true, false, not, ◌&&◌, ◌||◌, Option, none,
  some, List, [], ◌∷◌, ◌++◌, ◌==◌, ltb, leb, if◌then◌else◌, length, take,
}
use kronked_os.Prelude.Int.{pos}
use kronked_os.Prelude.Text.{text}
use kronked_os.Digits.{dec_digits}
use kronked_os.Vga.{Vga}
use kronked_os.Vga.Put.{vga_put_at}

abbrev pub field_top : ℕ
field_top = 2

abbrev pub field_bottom : ℕ
field_bottom = 22

abbrev pub field_left : ℕ
field_left = 1

abbrev pub field_right : ℕ
field_right = 78

abbrev pub max_snake_len : ℕ
max_snake_len = 400

-- `point_t`
pub record Point : Type 0 where
  pub row : ℕ
  pub col : ℕ

-- `DIR_UP` to `DIR_RIGHT`
pub data Direction : Type 0 where
  up down left right : Direction

unfoldable pub rng_seed : ℕ → ℕ
rng_seed seed = if seed == 0 then 12345 else seed

-- The number, and the next state.
unfoldable pub rng_next : ℕ → ℕ × ℕ
rng_next state =
    let state' = (state * 1103515245 + 12345) % 2 ^ 32 in (state' / 2 ^ 16 % 2 ^ 15, state')

unfoldable pub same_point : Point → Point → Bool
same_point p q = p.row == q.row && p.col == q.col

unfoldable pub collides : Point → List Point → Bool
unfolding same_point
collides p [] = false
collides p (b ∷ body) = same_point b p || collides p body

-- One candidate of `place_food`.
unfoldable pub candidate : ℕ → Point × ℕ
unfolding rng_next
candidate state =
    let (r, state1) = rng_next state in
    let (c, state2) = rng_next state1 in
    (
      record {
        row = field_top + r % (field_bottom - field_top + 1);
        col = field_left + c % (field_right - field_left + 1);
      },
      state2,
    )

-- The loop, with at most `rounds` candidates; `none` is a loop that goes on.
unfoldable pub place_food : ℕ → List Point → ℕ → Option (Point × ℕ)
unfolding candidate collides
place_food zero body state = none
place_food (suc rounds) body state =
    let (p, state') = candidate state in
    let rest = place_food rounds body state' in if collides p body then rest else some (p, state')

unfoldable pub is_opposite : Direction → Direction → Bool
is_opposite up down = true
is_opposite down up = true
is_opposite left right = true
is_opposite right left = true
is_opposite _ _ = false

-- The direction that a key asks for, where the snake moves in `direction`.
unfoldable pub turn : Direction → ℕ → Direction → Direction
unfolding is_opposite
turn direction c requested =
    if c == b'w' && not (is_opposite up direction)
    then up
    else if c == b's' && not (is_opposite down direction)
    then down
    else if c == b'a' && not (is_opposite left direction)
    then left
    else if c == b'd' && not (is_opposite right direction)
    then right
    else requested

-- `requested_dir` and `quit` behind the keys of a step.
unfoldable pub read_keys : Direction → List ℕ → Direction × Bool → Direction × Bool
unfolding turn
read_keys direction [] (requested, quit) = (requested, quit)
read_keys direction (c ∷ keys) (requested, quit) =
    read_keys direction keys (turn direction c requested, quit || c == b'q')

-- No cell of the field is in row 0 or column 0.
unfoldable pub move : Direction → Point → Point
move up p = record p { row = p.row - 1 }
move down p = record p { row = p.row + 1 }
move left p = record p { col = p.col - 1 }
move right p = record p { col = p.col + 1 }

unfoldable pub in_field : Point → Bool
in_field p =
    not (
      ltb p.row field_top
      || ltb field_bottom p.row
      || ltb p.col field_left
      || ltb field_right p.col)

pub record Game : Type 0 where
  pub body : List Point
  pub direction : Direction
  pub score : ℕ
  pub food : Point
  pub rng_state : ℕ
  pub screen : Vga

unfoldable pub put : Point → ℕ → ℕ → Vga → Vga
put p c attr v = vga_put_at (pos p.row) (pos p.col) c attr v

-- `while (*s) vga_put_at(0, col++, *s++, attr);`
unfoldable pub put_text : ℕ → List ℕ → ℕ → Vga → Vga
put_text col [] attr v = v
put_text col (c ∷ s) attr v = put_text (col + 1) s attr (vga_put_at (pos 0) (pos col) c attr v)

unfoldable pub clear_line : ℕ → ℕ → Vga → Vga
clear_line zero c v = v
clear_line (suc n) c v = clear_line n (c + 1) (vga_put_at (pos 0) (pos c) 32 15 v)

-- Yellow is 14 and white 15, on black.
unfoldable pub draw_score : ℕ → Bool → Vga → Vga
unfolding put_text clear_line
draw_score score alive v =
    let label = if alive then text "SNAKE -- score: " else text "GAME OVER -- final score: " in
    let line = label ++ dec_digits score in
    let scored = put_text 0 line 14 (clear_line 80 0 v) in
    if alive
    then scored
    else put_text (length line) (text "  (press any key to return to shell)") 15 scored

unfoldable pub head : List Point → Point
head [] = record { row = 0; col = 0 }
head (p ∷ body) = p

unfoldable pub last : List Point → Point
last [] = record { row = 0; col = 0 }
last (p ∷ []) = p
last (p ∷ q ∷ body) = last (q ∷ body)

-- The head, and the cell behind it, in light green.
unfoldable pub draw_head : List Point → Vga → Vga
unfolding put
draw_head [] v = v
draw_head (p ∷ []) v = put p b'@' 10 v
draw_head (p ∷ q ∷ body) v = put q b'o' 10 (put p b'@' 10 v)

-- What ends the loop, and its next round.
pub data Outcome : Type 0 where
  quits dies : Outcome
  endless : Outcome
  moves : Game → Outcome

unfoldable pub finish_step : Game → Game
unfolding draw_head
finish_step g = record g { screen = draw_score g.score true (draw_head g.body g.screen) }

-- The snake that has eaten, behind `place_food`.
unfoldable pub fed : Option (Point × ℕ) → Game → Outcome
unfolding put finish_step
fed none g = endless
fed (some (food, state)) g =
    moves (
      finish_step (record g { food = food; rng_state = state; screen = put food b'*' 14 g.screen }))

unfoldable pub grow : ℕ → Point → Game → Outcome
unfolding fed place_food
grow rounds p g =
    let g' = record g { body = p ∷ g.body; score = (g.score + 10) % 2 ^ 32 } in
    fed (place_food rounds g'.body g.rng_state) g'

unfoldable pub creep : Point → Game → Outcome
unfolding put finish_step last
creep p g = moves (
    finish_step (record g {
      body = p ∷ take (length g.body - 1) g.body;
      screen = put (last g.body) 32 0 g.screen;
    }))

unfoldable pub advance : ℕ → Point → Game → Outcome
unfolding grow creep
advance rounds p g =
    if not (in_field p) || collides p g.body
    then dies
    else if same_point p g.food && ltb (length g.body) max_snake_len
    then grow rounds p g
    else creep p g

-- A round of the loop of `snake_run`.
unfoldable pub step : ℕ → List ℕ → Game → Outcome
unfolding advance read_keys move head
step rounds keys g =
    let (requested, quit) = read_keys g.direction keys (g.direction, false) in
    if quit
    then quits
    else advance rounds (move requested (head g.body)) (record g { direction = requested })
