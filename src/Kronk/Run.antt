-- ===== src/Kronk/Run.antt =====
-- kernel/kronk.c: `kronk_run` from the file's content on: the numbered lines, and the run. Its messages
-- are left out.
use kronked_os.Prelude.{
  ℕ, zero, suc, ◌+◌, ◌-◌, ◌≤◌, true, false, none, some, List, [], ◌∷◌, ◌==◌, if◌then◌else◌, length,
  get_elem?, arith, Bool-cases, inl, inr,
}
use kronked_os.Kronk.{skip_spaces, is_digit, add, multiply}
use kronked_os.Kronk.Exec.{Line, Machine, advance, stop, waits, jump, exec_line, head_or_nul}

-- `MAX_LINES`, `MAX_LINE_LEN`, `MAX_STEPS`
abbrev pub max_lines : ℕ
max_lines = 300

abbrev pub max_line_len : ℕ
max_line_len = 100

abbrev pub max_steps : ℕ
max_steps = 200000

-- The file's lines; a last line may lack its newline.
unfoldable pub in_first : ℕ → List (List ℕ) → List (List ℕ)
in_first c [] = (c ∷ []) ∷ []
in_first c (l ∷ ls) = (c ∷ l) ∷ ls

unfoldable pub lines_of : List ℕ → List (List ℕ)
unfolding in_first
lines_of [] = []
lines_of (c ∷ cs) = if c == 10 then [] ∷ lines_of cs else in_first c (lines_of cs)

-- The line's number, and what stands behind it.
unfoldable pub line_number : ℕ → List ℕ → ℕ × List ℕ
line_number number [] = (number, [])
line_number number (c ∷ p) =
    if is_digit c then line_number (add (multiply number 10) (c - 48)) p else (number, c ∷ p)

-- The text up to a carriage return, of at most `room` characters.
unfoldable pub line_text : ℕ → List ℕ → List ℕ
line_text zero p = []
line_text (suc room) [] = []
line_text (suc room) (c ∷ p) = if c == 13 then [] else c ∷ line_text room p

abbrev pub line_from : ℕ × List ℕ → Line
line_from (number, p) = record {
  number = number;
  text = line_text (max_line_len - 1) (skip_spaces p);
}

-- Lines without a number are skipped; the array has room for `room` more.
unfoldable pub load_lines : ℕ → List (List ℕ) → List Line
unfolding line_number line_text
load_lines zero ls = []
load_lines (suc room) [] = []
load_lines (suc room) (l ∷ ls) =
    if is_digit (head_or_nul (skip_spaces l))
    then line_from (line_number 0 (skip_spaces l)) ∷ load_lines room ls
    else load_lines (suc room) ls

unfoldable pub load_program : List ℕ → List Line
unfolding lines_of load_lines
load_program content = load_lines max_lines (lines_of content)

-- How a run ends: `finished`, the error message with the line it names, the message on too many steps,
-- no numbered line, or an INPUT that waits.
pub data Ending : Type 0 where
  finished too_many_steps no_lines waiting : Ending
  error_at : ℕ → Ending

abbrev pub named_line : Line → Machine → ℕ
named_line line m = if m.error_line == 0 then line.number else m.error_line

-- The loop with `rounds` lines left to execute.
unfoldable pub run_loop : ℕ → List Line → ℕ → Machine → Ending × Machine
unfolding exec_line
run_loop zero program pc m = (too_many_steps, m)
run_loop (suc rounds) program pc m = elim (get_elem? program pc) [
  | none ↦ (finished, m)
  | some line ↦
      let r = exec_line program line m in
      elim r.1.had_error [
        | true ↦ (error_at (named_line line r.1), r.1)
        | false ↦ elim r.0 [
          | advance ↦ run_loop rounds program (pc + 1) r.1
          | stop ↦ (finished, r.1)
          | waits ↦ (waiting, r.1)
          | jump i ↦ run_loop rounds program i r.1
        ]
      ]
]

abbrev pub fresh_machine : List ℕ → Machine
fresh_machine keys = record {
  variables = λ _. 0;
  had_error = false;
  error_line = 0;
  output = [];
  keys = keys;
}

unfoldable pub run_program : List Line → List ℕ → Ending × Machine
unfolding run_loop
run_program [] keys = (no_lines, fresh_machine keys)
run_program (l ∷ ls) keys = run_loop (max_steps + 1) (l ∷ ls) 0 (fresh_machine keys)

unfoldable pub kronk_run : List ℕ → List ℕ → Ending × Machine
unfolding load_program run_program
kronk_run content keys = run_program (load_program content) keys

-- Every line's text, with its NUL, fits in `max_line_len` characters.
abbrev pub TextsFit : List Line → Type 0
TextsFit [] = Unit {0}
TextsFit (l ∷ ls) = (length l.text + 1 ≤ max_line_len) × TextsFit ls

length-line_text : (room : ℕ) (p : List ℕ) → length (line_text room p) ≤ room
unfolding line_text
length-line_text zero p = omega arith
length-line_text (suc room) [] = omega arith
length-line_text (suc room) (c ∷ p) = ground (arith, length-line_text room p)

load_lines_fit :
    (room : ℕ) (ls : List (List ℕ))
    → (length (load_lines room ls) ≤ room) × TextsFit (load_lines room ls)
unfolding load_lines
load_lines_fit zero ls = (omega arith, _)
load_lines_fit (suc room) [] = (omega arith, _)
load_lines_fit (suc room) (l ∷ ls) =
    let p = (line_number 0 (skip_spaces l)).1 in
    let fits : length (line_text 99 (skip_spaces p)) ≤ 99 = length-line_text 99 (skip_spaces p) in
    elim (Bool-cases (is_digit (head_or_nul (skip_spaces l)))) [
      | inl here ↦
          let (le, rest) = load_lines_fit room ls in rw here (omega arith, (omega arith, rest))
      | inr blank ↦ rw blank (load_lines_fit (suc room) ls)
    ]

-- Whatever the file holds, loading it stays within the program array and within each line's buffer:
-- at most 300 lines, of at most 99 characters and a NUL each.
pub load_program_lem :
    (content : List ℕ)
    → (length (load_program content) ≤ max_lines) × TextsFit (load_program content)
unfolding load_program
load_program_lem content = load_lines_fit max_lines (lines_of content)
