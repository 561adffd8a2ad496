-- ===== src/Kronk/Exec.antt =====
-- kernel/kronk.c: the statements. The screen is the list of the characters written to it, and the
-- keyboard the list of those that will be typed.
use kronked_os.Prelude.{
  ℕ, zero, suc, ◌+◌, Bool, true, ◌||◌, not, Option, none, some, List, [], ◌∷◌, ◌++◌, ◌==◌, ltb,
  if◌then◌else◌, update, length,
}
use kronked_os.Kronk.{skip_spaces, is_letter, var_index, parse_number, print_int, str_starts_with}
use kronked_os.Kronk.Expr.{Variables, Parsed, parse_expr, parse_condition, fuel}

-- `struct basic_line`
pub record Line : Type 0 where
  pub number : ℕ
  pub text : List ℕ

pub record Machine : Type 0 where
  pub variables : Variables
  pub had_error : Bool
  pub error_line : ℕ
  pub output : List ℕ
  pub keys : List ℕ

-- The result of `exec_line`; `waits` is an INPUT for which too few keys come.
pub data Next : Type 0 where
  advance stop waits : Next
  jump : ℕ → Next

unfoldable pub find_line_index : ℕ → ℕ → List Line → Option ℕ
find_line_index number i [] = none
find_line_index number i (l ∷ ls) =
    let rest = find_line_index number (i + 1) ls in if l.number == number then some i else rest

-- `had_error = 1; return -2;`
abbrev pub syntax_error : Machine → Next × Machine
syntax_error m = (stop, record m { had_error = true })

abbrev pub write : List ℕ → Machine → Machine
write text m = record m { output = m.output ++ text }

-- The head of a position, and what stands behind it.
abbrev pub head_or_nul : List ℕ → ℕ
head_or_nul [] = 0
head_or_nul (c ∷ p) = c

abbrev pub advance_by : ℕ → List ℕ → List ℕ
advance_by zero p = p
advance_by (suc n) [] = []
advance_by (suc n) (c ∷ p) = advance_by n p

-- The value of an expression goes to the variable.
unfoldable pub store_value : ℕ → Parsed → Machine → Next × Machine
store_value var r m = (
  advance,
  record m { variables = update m.variables var r.value; had_error = m.had_error || r.had_error },
)

unfoldable pub exec_let : List ℕ → Machine → Next × Machine
unfolding store_value
exec_let p m =
    let name = skip_spaces p in
    let behind_name = skip_spaces (advance_by 1 name) in
    if not (is_letter (head_or_nul name))
    then syntax_error m
    else if not (head_or_nul behind_name == 61)
    then syntax_error m
    else store_value (var_index (head_or_nul name))
        (parse_expr fuel m.variables (advance_by 1 behind_name)) m

-- "KRONK! WRONG LEVER. EVERY VARIABLE IS NOW ZERO. YOU'RE WELCOME.\n"
abbrev pub wrong_lever : List ℕ
wrong_lever =
    75 ∷ 82 ∷ 79 ∷ 78 ∷ 75 ∷ 33 ∷ 32 ∷ 87 ∷ 82 ∷ 79 ∷ 78 ∷ 71 ∷ 32 ∷ 76 ∷ 69 ∷ 86 ∷ 69 ∷ 82 ∷ 46
    ∷ 32 ∷ 69 ∷ 86 ∷ 69 ∷ 82 ∷ 89 ∷ 32 ∷ 86 ∷ 65 ∷ 82 ∷ 73 ∷ 65 ∷ 66 ∷ 76 ∷ 69 ∷ 32 ∷ 73 ∷ 83 ∷ 32
    ∷ 78 ∷ 79 ∷ 87 ∷ 32 ∷ 90 ∷ 69 ∷ 82 ∷ 79 ∷ 46 ∷ 32 ∷ 89 ∷ 79 ∷ 85 ∷ 39 ∷ 82 ∷ 69 ∷ 32 ∷ 87 ∷ 69
    ∷ 76 ∷ 67 ∷ 79 ∷ 77 ∷ 69 ∷ 46 ∷ 10 ∷ []

unfoldable pub exec_kronk : Machine → Next × Machine
exec_kronk m = (
  advance,
  write wrong_lever (record m { variables = λ i. if ltb i 26 then 0 else m.variables i }),
)

unfoldable pub drop_last : List ℕ → List ℕ
drop_last [] = []
drop_last (c ∷ []) = []
drop_last (c ∷ d ∷ rest) = c ∷ drop_last (d ∷ rest)

-- The loop of INPUT over the keys: the line typed, at most 31 characters.
unfoldable pub read_line : List ℕ → List ℕ → Machine → Option (List ℕ) × Machine
unfolding drop_last
read_line [] buf m = (none, record m { keys = [] })
read_line (c ∷ keys) buf m =
    let erased =
      read_line keys (drop_last buf) (write (if ltb 0 (length buf) then 8 ∷ [] else []) m) in
    let typed = read_line keys (buf ++ (c ∷ [])) (write (c ∷ []) m) in
    let ignored = read_line keys buf m in
    if c == 10
    then (some buf, write (10 ∷ []) (record m { keys = keys }))
    else if c == 8
    then erased
    else if ltb (length buf) 31
    then typed
    else ignored

unfoldable pub store_line : ℕ → Option (List ℕ) × Machine → Next × Machine
store_line var (none, m) = (waits, m)
store_line var (some text, m) =
    (advance, record m { variables = update m.variables var (parse_number text).0 })

unfoldable pub exec_input : List ℕ → Machine → Next × Machine
unfolding read_line store_line
exec_input p m =
    let name = skip_spaces p in
    if not (is_letter (head_or_nul name))
    then syntax_error m
    else store_line (var_index (head_or_nul name)) (read_line m.keys [] (write (63 ∷ 32 ∷ []) m))

-- The characters of a string up to the closing quote, and the position behind it.
unfoldable pub quoted : List ℕ → List ℕ × List ℕ
quoted [] = ([], [])
quoted (c ∷ p) = let (text, rest) = quoted p in if c == 34 then ([], p) else (c ∷ text, rest)

-- One item of PRINT, from a position that is not the end.
unfoldable pub print_item : List ℕ → Machine → Machine × List ℕ
unfolding quoted
print_item p m =
    if head_or_nul p == 34
    then (let (text, rest) = quoted (advance_by 1 p) in (write text m, rest))
    else let r = parse_expr fuel m.variables p in
      (write (print_int r.value) (record m { had_error = m.had_error || r.had_error }), r.rest)

-- The loop, with one round for every character at most.
unfoldable pub print_loop : ℕ → List ℕ → Machine → Machine
unfolding print_item
print_loop zero p m = m
print_loop (suc rounds) p m =
    let (shown, rest) = print_item (skip_spaces p) m in
    let behind_item = skip_spaces rest in
    let next = print_loop rounds (advance_by 1 behind_item) (write (32 ∷ []) shown) in
    if head_or_nul (skip_spaces p) == 0
    then m
    else if head_or_nul behind_item == 44
    then next
    else shown

unfoldable pub exec_print : List ℕ → Machine → Next × Machine
unfolding print_loop
exec_print p m = (advance, write (10 ∷ []) (print_loop (length p + 1) p m))

-- The jump of GOTO and IF.
unfoldable pub go_to : ℕ → Option ℕ → Machine → Next × Machine
go_to number none m = (stop, record m { had_error = true; error_line = number })
go_to number (some i) m = (jump i, m)

unfoldable pub exec_goto : List Line → ℕ → List ℕ → Machine → Next × Machine
unfolding go_to find_line_index
exec_goto program number p m =
    go_to number (find_line_index (parse_number (skip_spaces p)).0 0 program) m

-- "THEN", "GOTO"
abbrev pub then_word : List ℕ
then_word = 84 ∷ 72 ∷ 69 ∷ 78 ∷ []

abbrev pub goto_word : List ℕ
goto_word = 71 ∷ 79 ∷ 84 ∷ 79 ∷ []

-- Behind the condition.
unfoldable pub exec_then : List Line → ℕ → Parsed → Machine → Next × Machine
unfolding exec_goto
exec_then program number cond m =
    let p = skip_spaces cond.rest in
    let target = skip_spaces (advance_by 4 p) in
    if not (str_starts_with p then_word)
    then syntax_error m
    else if cond.value == 0
    then (advance, m)
    else exec_goto program number
        (if str_starts_with target goto_word then advance_by 4 target else target) m

unfoldable pub exec_if : List Line → ℕ → List ℕ → Machine → Next × Machine
unfolding exec_then
exec_if program number p m =
    let cond = parse_condition m.variables (skip_spaces p) in
    exec_then program number cond (record m { had_error = m.had_error || cond.had_error })

-- `exec_line`: the keywords REM, END, LET, KRONK, INPUT, PRINT, GOTO and IF, tried in this order.
unfoldable pub exec_line : List Line → Line → Machine → Next × Machine
unfolding exec_let exec_kronk exec_input exec_print exec_goto exec_if
exec_line program line m =
    let p = skip_spaces line.text in
    if str_starts_with p (82 ∷ 69 ∷ 77 ∷ [])
    then (advance, m)
    else if str_starts_with p (69 ∷ 78 ∷ 68 ∷ [])
    then (stop, m)
    else if str_starts_with p (76 ∷ 69 ∷ 84 ∷ [])
    then exec_let (advance_by 3 p) m
    else if str_starts_with p (75 ∷ 82 ∷ 79 ∷ 78 ∷ 75 ∷ [])
    then exec_kronk m
    else if str_starts_with p (73 ∷ 78 ∷ 80 ∷ 85 ∷ 84 ∷ [])
    then exec_input (advance_by 5 p) m
    else if str_starts_with p (80 ∷ 82 ∷ 73 ∷ 78 ∷ 84 ∷ [])
    then exec_print (advance_by 5 p) m
    else if str_starts_with p goto_word
    then exec_goto program line.number (advance_by 4 p) m
    else if str_starts_with p (73 ∷ 70 ∷ [])
    then exec_if program line.number (advance_by 2 p) m
    else syntax_error m
