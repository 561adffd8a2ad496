-- ===== src/Snake/Valid.antt =====
-- kernel/snake.c: the snake stays in the field and does not cross itself.
use kronked_os.Prelude.{
  ℕ, zero, suc, ◌+◌, ◌-◌, ◌≤◌, ◌<◌, ◌≡◌, refl, Bool, true, false, Option, none, some, List, [], ◌∷◌,
  ltb, if◌then◌else◌, length, take, length-take, Bool-cases, inl, inr, ◌⊎◌, arith,
}
use kronked_os.Snake.{
  Point, Game, Outcome, quits, dies, endless, moves, same_point, collides, candidate, place_food,
  in_field, read_keys, step, advance, grow, creep, fed, finish_step, max_snake_len,
}

-- Inside of the border, which is in rows 1 and 23 and in columns 0 and 79.
abbrev pub InField : Point → Type 0
InField p = (2 ≤ p.row) × (p.row ≤ 22) × (1 ≤ p.col) × (p.col ≤ 78)

in_field-InField : (p : Point) → in_field p ≡ true → InField p
unfolding in_field
in_field-InField p h = (ground (arith, h), ground (arith, h), ground (arith, h), ground (arith, h))

-- Every cell is in the field, and no two of them are the same.
abbrev pub Apart : List Point → Type 0
Apart [] = true ≡ true
Apart (p ∷ body) = InField p × (collides p body ≡ false) × Apart body

pub record Valid (g : Game) : Type 0 where
  pub apart : Apart g.body
  pub alive : 0 < length g.body
  pub fits : length g.body ≤ max_snake_len
  pub food_in : InField g.food
  pub food_free : (collides g.food g.body ≡ false) ⊎ (length g.body ≡ max_snake_len)

collides-take :
    (n : ℕ) (p : Point) (body : List Point)
    → collides p body ≡ false
    → collides p (take n body) ≡ false
unfolding collides
collides-take zero p body h = refl
collides-take (suc n) p [] h = refl
collides-take (suc n) p (b ∷ body) h = ground (arith, h, collides-take n p body)

Apart-take : (n : ℕ) (body : List Point) → Apart body → Apart (take n body)
Apart-take zero body h = refl
Apart-take (suc n) [] h = refl
Apart-take (suc n) (p ∷ body) h = (h.0, collides-take n p body h.1, Apart-take n body h.2)

candidate-InField : (state : ℕ) → InField (candidate state).0
unfolding candidate
candidate-InField state = (omega arith, omega arith, omega arith, omega arith)

-- The food that is found is in the field and not on the snake.
abbrev pub Placed : List Point → Option (Point × ℕ) → Type 0
Placed body none = true ≡ true
Placed body (some (food, state)) = InField food × (collides food body ≡ false)

place_food-Placed :
    (rounds : ℕ) (body : List Point) (state : ℕ) → Placed body (place_food rounds body state)
unfolding place_food
place_food-Placed zero body state = refl
place_food-Placed (suc rounds) body state = elim (Bool-cases (collides (candidate state).0 body)) [
  | inl e ↦ rw e (place_food-Placed rounds body (candidate state).1)
  | inr e ↦ rw e (candidate-InField state, e)
]

abbrev pub GoesOn : Outcome → Type 0
GoesOn quits = true ≡ true
GoesOn dies = true ≡ true
GoesOn endless = true ≡ true
GoesOn (moves g) = Valid g

fed-GoesOn :
    (o : Option (Point × ℕ)) (g : Game)
    → Placed g.body o
    → Apart g.body
    → 0 < length g.body
    → length g.body ≤ max_snake_len
    → GoesOn (fed o g)
unfolding fed finish_step
fed-GoesOn none g placed apart alive fits = refl
fed-GoesOn (some (food, state)) g placed apart alive fits = record {
  apart = apart;
  alive = alive;
  fits = fits;
  food_in = placed.0;
  food_free = inl placed.1;
}

-- The cell in front is free, and the snake can grow into it.
grow-GoesOn :
    (rounds : ℕ) (p : Point) (g : Game)
    → Valid g
    → InField p
    → collides p g.body ≡ false
    → length g.body < max_snake_len
    → GoesOn (grow rounds p g)
unfolding grow
grow-GoesOn rounds p g v inside free room =
    fed-GoesOn _ _ (place_food-Placed rounds (p ∷ g.body) g.rng_state) (inside, free, v.apart)
      (omega arith) (omega arith)

creep_length :
    (body : List Point) → 0 < length body → length (take (length body - 1) body) + 1 ≡ length body
creep_length body h = omega (arith, h, length-take (length body - 1) body)

-- The food stays off the snake that has not come to it.
creep_food :
    (p food : Point) (n : ℕ) (body : List Point)
    → same_point p food ≡ false
    → collides food body ≡ false
    → collides food (p ∷ take n body) ≡ false
unfolding collides
creep_food p food n body hp h = ground (arith, hp, collides-take n food body h)

creep-GoesOn :
    (p : Point) (g : Game)
    → Valid g
    → InField p
    → collides p g.body ≡ false
    → (same_point p g.food ≡ false) ⊎ (length g.body ≡ max_snake_len)
    → GoesOn (creep p g)
unfolding creep finish_step
creep-GoesOn p g v inside free off = record {
  apart = (
    inside,
    collides-take (length g.body - 1) p g.body free,
    Apart-take (length g.body - 1) g.body v.apart,
  );
  alive = omega arith;
  fits = omega (arith, v.fits, creep_length g.body v.alive);
  food_in = v.food_in;
  food_free = elim v.food_free [
    | inr full ↦ inr (omega (arith, full, creep_length g.body v.alive))
    | inl away ↦ elim off [
      | inl other ↦ inl (creep_food p g.food (length g.body - 1) g.body other away)
      | inr full ↦ inr (omega (arith, full, creep_length g.body v.alive))
    ]
  ];
}

advance-GoesOn : (rounds : ℕ) (p : Point) (g : Game) → Valid g → GoesOn (advance rounds p g)
unfolding advance
advance-GoesOn rounds p g v = elim (Bool-cases (in_field p)) [
  | inr outside ↦ rw outside refl
  | inl inside ↦ elim (Bool-cases (collides p g.body)) [
    | inl hit ↦ rw (inside, hit) refl
    | inr free ↦ elim (Bool-cases (same_point p g.food)) [
      | inr off ↦
          rw (inside, free, off) (creep-GoesOn p g v (in_field-InField p inside) free (inl off))
      | inl ate ↦ elim (Bool-cases (ltb (length g.body) max_snake_len)) [
        | inl room ↦
            rw (inside, free, ate, room)
              (grow-GoesOn rounds p g v (in_field-InField p inside) free (ground arith))
        | inr full ↦
            rw (inside, free, ate, full)
              (creep-GoesOn p g v (in_field-InField p inside) free (inr (ground (arith, v.fits))))
      ]
    ]
  ]
]

stopped : (b : Bool) (o : Outcome) → GoesOn o → GoesOn (if b then quits else o)
stopped true o h = refl
stopped false o h = h

-- A round of the game that goes on leaves a snake of at most 400 cells, all in the field and no two
-- the same, and the food in the field, off the snake unless that has its full length, whatever
-- keys were pressed and whatever numbers the generator gives.
pub step-Valid : (rounds : ℕ) (keys : List ℕ) (g : Game) → Valid g → GoesOn (step rounds keys g)
unfolding step
step-Valid rounds keys g v = stopped (read_keys g.direction keys (g.direction, false)).1 _ (
    advance-GoesOn rounds _
      (record g { direction = (read_keys g.direction keys (g.direction, false)).0 })
      (record {
        apart = v.apart;
        alive = v.alive;
        fits = v.fits;
        food_in = v.food_in;
        food_free = v.food_free;
      }))
