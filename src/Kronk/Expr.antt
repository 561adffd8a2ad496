-- ===== src/Kronk/Expr.antt =====
-- kernel/kronk.c: the parser of expressions and conditions, which computes as it reads. Every call and
-- every round of a loop takes one unit of fuel; a line has at most 99 characters.
use kronked_os.Prelude.{
  ℕ, zero, suc, Bool, true, false, ◌&&◌, ◌||◌, not, List, [], ◌∷◌, ◌==◌, if◌then◌else◌,
}
use kronked_os.Kronk.{
  skip_spaces, is_digit, is_letter, var_index, parse_number, negate, add, subtract, multiply,
  divide, less,
}

-- `variables`
abbrev pub Variables : Type 0
Variables = ℕ → ℕ

-- What a parser leaves: the value, whether `had_error` was set, and the position.
pub record Parsed : Type 0 where
  pub value : ℕ
  pub had_error : Bool
  pub rest : List ℕ

abbrev pub parsed : ℕ → List ℕ → Parsed
parsed value rest = record { value = value; had_error = false; rest = rest }

abbrev pub erroneous : List ℕ → Parsed
erroneous rest = record { value = 0; had_error = true; rest = rest }

-- A value computed behind another parse, which may have failed.
abbrev pub behind : Parsed → Parsed → Parsed
behind a b = record b { had_error = a.had_error || b.had_error }

-- What the next character starts.
pub data Head : Type 0 where
  opening : List ℕ → Head
  closing : List ℕ → Head
  plus : List ℕ → Head
  minus : List ℕ → Head
  star : List ℕ → Head
  slash : List ℕ → Head
  digit : Head
  letter : ℕ → List ℕ → Head
  nothing : Head

unfoldable pub head_of : List ℕ → Head
head_of [] = nothing
head_of (c ∷ p) =
    if c == 40
    then opening p
    else if c == 41
    then closing p
    else if c == 43
    then plus p
    else if c == 45
    then minus p
    else if c == 42
    then star p
    else if c == 47
    then slash p
    else if is_digit c
    then digit
    else if is_letter c
    then letter (var_index c) p
    else nothing

abbrev pub of_number : ℕ × List ℕ → Parsed
of_number (value, rest) = parsed value rest

-- `if (**p == ')') (*p)++;`
unfoldable pub close : Parsed → Parsed
unfolding head_of
close r = elim (head_of (skip_spaces r.rest)) [
  | closing rest ↦ record r { rest = rest }
  | _ ↦ record r { rest = skip_spaces r.rest }
]

abbrev pub negated : Parsed → Parsed
negated r = record r { value = negate r.value }

unfoldable mutual
  pub parse_expr : ℕ → Variables → List ℕ → Parsed
  parse_expr zero vars p = erroneous p
  parse_expr (suc n) vars p = expr_loop n vars (parse_term n vars (skip_spaces p))

  pub expr_loop : ℕ → Variables → Parsed → Parsed
  expr_loop zero vars v = erroneous v.rest
  expr_loop (suc n) vars v = elim (head_of (skip_spaces v.rest)) [
    | plus p ↦
        let r = parse_term n vars p in
        expr_loop n vars (behind v (record r { value = add v.value r.value }))
    | minus p ↦
        let r = parse_term n vars p in
        expr_loop n vars (behind v (record r { value = subtract v.value r.value }))
    | _ ↦ record v { rest = skip_spaces v.rest }
  ]

  pub parse_term : ℕ → Variables → List ℕ → Parsed
  parse_term zero vars p = erroneous p
  parse_term (suc n) vars p = term_loop n vars (parse_factor n vars p)

  pub term_loop : ℕ → Variables → Parsed → Parsed
  term_loop zero vars v = erroneous v.rest
  term_loop (suc n) vars v = elim (head_of (skip_spaces v.rest)) [
    | star p ↦
        let r = parse_factor n vars p in
        term_loop n vars (behind v (record r { value = multiply v.value r.value }))
    | slash p ↦
        let r = parse_factor n vars p in
        elim (r.value == 0) [
          | true ↦ erroneous r.rest
          | false ↦ term_loop n vars (behind v (record r { value = divide v.value r.value }))
        ]
    | _ ↦ record v { rest = skip_spaces v.rest }
  ]

  pub parse_factor : ℕ → Variables → List ℕ → Parsed
  parse_factor zero vars p = erroneous p
  parse_factor (suc n) vars p = elim (head_of (skip_spaces p)) [
    | opening rest ↦ close (parse_expr n vars rest)
    | minus rest ↦ negated (parse_factor n vars rest)
    | digit ↦ of_number (parse_number (skip_spaces p))
    | letter i rest ↦ parsed (vars i) rest
    | _ ↦ erroneous (skip_spaces p)
  ]

-- Each character costs at most four calls.
abbrev pub fuel : ℕ
fuel = 512

-- `parse_condition`: the operator, and the position behind it.
pub data Relation : Type 0 where
  le ge ne lt gt eq no_relation : Relation

unfoldable pub relation : List ℕ → Relation × List ℕ
relation [] = (no_relation, [])
relation (a ∷ []) =
    if a == 60
    then (lt, [])
    else if a == 62
    then (gt, [])
    else if a == 61
    then (eq, [])
    else (no_relation, a ∷ [])
relation (a ∷ b ∷ p) =
    if a == 60 && b == 61
    then (le, p)
    else if a == 62 && b == 61
    then (ge, p)
    else if a == 60 && b == 62
    then (ne, p)
    else if a == 60
    then (lt, b ∷ p)
    else if a == 62
    then (gt, b ∷ p)
    else if a == 61
    then (eq, b ∷ p)
    else (no_relation, a ∷ b ∷ p)

unfoldable pub holds : Relation → ℕ → ℕ → Bool
holds le a b = not (less b a)
holds ge a b = not (less a b)
holds ne a b = not (a == b)
holds lt a b = less a b
holds gt a b = less b a
holds eq a b = a == b
holds no_relation a b = false

abbrev pub bit : Bool → ℕ
bit b = if b then 1 else 0

unfoldable pub compare_with : Variables → Parsed → Relation × List ℕ → Parsed
unfolding parse_expr holds
compare_with vars lhs (no_relation, p) = erroneous p
compare_with vars lhs (rel, p) =
    let rhs = parse_expr fuel vars p in
    behind lhs (record rhs { value = bit (holds rel lhs.value rhs.value) })

unfoldable pub parse_condition : Variables → List ℕ → Parsed
unfolding compare_with relation
parse_condition vars p =
    let lhs = parse_expr fuel vars p in compare_with vars lhs (relation (skip_spaces lhs.rest))
