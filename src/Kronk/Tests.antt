-- ===== src/Kronk/Tests.antt =====
-- Runs of kernel/kronk.c, and its theorems at a small program.
use kronked_os.Prelude.{ℕ, ◌-◌, ◌^◌, ◌≤◌, ◌≡◌, refl, List, [], ◌∷◌, length, arith}
use kronked_os.Kronk.{
  parse_number, print_int, print_unsigned, digits_of, skip_spaces, str_starts_with,
}
use kronked_os.Kronk.Expr.{parse_expr, head_of}
use kronked_os.Kronk.Number.{parse_number-print_int}
use kronked_os.Kronk.Run.{load_program, kronk_run, max_lines, TextsFit, load_program_lem}

-- -7
parse_number-print_int_example : parse_number (print_int (2 ^ 32 - 7)) ≡ (2 ^ 32 - 7, [])
parse_number-print_int_example = parse_number-print_int (2 ^ 32 - 7) (omega arith)

-- "10 PRINT 2+3*4\n20 END\n"
abbrev program : List ℕ
program =
    49 ∷ 48 ∷ 32 ∷ 80 ∷ 82 ∷ 73 ∷ 78 ∷ 84 ∷ 32 ∷ 50 ∷ 43 ∷ 51 ∷ 42 ∷ 52 ∷ 10 ∷ 50 ∷ 48 ∷ 32 ∷ 69
    ∷ 78 ∷ 68 ∷ 10 ∷ []

load_program_lem_example :
    (length (load_program program) ≤ max_lines) × TextsFit (load_program program)
load_program_lem_example = load_program_lem program

-- "14\n"
shows : (kronk_run program []).1.output ≡ 49 ∷ 52 ∷ 10 ∷ []
unfolding kronk_run skip_spaces str_starts_with parse_expr head_of parse_number print_int
    print_unsigned digits_of
shows = refl
