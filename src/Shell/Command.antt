-- ===== src/Shell/Command.antt =====
-- kernel/shell.c: a command line from the keys to the command.
use kronked_os.Prelude.{
  ℕ, zero, suc, ◌<◌, ◌≡◌, refl, ap, ◌∙◌, true, false, some, List, [], ◌∷◌, ◌++◌, ◌==◌,
  if◌then◌else◌, length, arith,
}
use kronked_os.Prelude.Text.{text}
use kronked_os.Task.{Tasks}
use kronked_os.Vga.{Vga}
use kronked_os.Machine.{Machine, print}
use kronked_os.Editor.Typing.{AllTyped, read_line_typed}
use kronked_os.Shell.{
  ShellContext, prompts, skip_blanks, command_word, argument, split_command, spaces,
}
use kronked_os.Shell.Loop.{dispatch_to, dispatch, dispatch_read, shell_round}

abbrev pub Plain : List ℕ → Type 0
Plain [] = true ≡ true
Plain (c ∷ s) = ((c == 32) ≡ false) × Plain s

-- No space in front.
abbrev pub Trimmed : List ℕ → Type 0
Trimmed [] = true ≡ true
Trimmed (c ∷ s) = (c == 32) ≡ false

skip_blanks-spaces : (n : ℕ) (s : List ℕ) → Trimmed s → skip_blanks (spaces n ++ s) ≡ s
unfolding skip_blanks spaces
skip_blanks-spaces zero [] h = refl
skip_blanks-spaces zero (c ∷ s) h = rw h refl
skip_blanks-spaces (suc n) s h = skip_blanks-spaces n s h

command_word_lem : (w s : List ℕ) → Plain w → command_word (w ++ (32 ∷ s)) ≡ w
unfolding command_word
command_word_lem [] s h = refl
command_word_lem (c ∷ w) s h = rw h.0 (ap (λ t. c ∷ t) (command_word_lem w s h.1))

argument_lem : (w s : List ℕ) → Plain w → argument (w ++ (32 ∷ s)) ≡ skip_blanks s
unfolding argument
argument_lem [] s h = refl
argument_lem (c ∷ w) s h = rw h.0 (argument_lem w s h.1)

split_command_lem :
    (w : List ℕ) (n : ℕ) (arg : List ℕ)
    → Plain w
    → Trimmed arg
    → split_command (w ++ (spaces (suc n) ++ arg)) ≡ (w, arg)
unfolding split_command spaces
split_command_lem w n arg h k =
    rw
      (
        command_word_lem w (spaces n ++ arg) h,
        argument_lem w (spaces n ++ arg) h,
        skip_blanks-spaces n arg k,
      )
      refl

not_empty :
    (w : List ℕ) (n : ℕ) (arg : List ℕ) → (length (w ++ (spaces (suc n) ++ arg)) == 0) ≡ false
unfolding spaces
not_empty [] n arg = ground arith
not_empty (c ∷ w) n arg = ground arith

-- The command is dispatched, with the console as the line's echo has left it.
pub record Dispatches (x : ShellContext) (w : List ℕ) (n : ℕ) (arg rest : List ℕ) (m : Machine)
    : Type 0 where
  pub console : Tasks × Vga
  pub answers :
      shell_round x ((w ++ (spaces (suc n) ++ arg)) ++ (10 ∷ rest)) m
      ≡ some (
        rest,
        dispatch_to x w arg
            (record (print (text "kronk> ") m) { tasks = console.0; vga = console.1 }),
      )

-- A command without spaces, one space or more, an argument that does not begin with one, and Enter,
-- typed within 127 characters, are dispatched as that command with that argument; the keys behind them
-- are left, and only the console has changed before.
pub shell_round_lem :
    (x : ShellContext) (w : List ℕ) (n : ℕ) (arg rest : List ℕ) (m : Machine)
    → Plain w
    → Trimmed arg
    → AllTyped (w ++ (spaces (suc n) ++ arg))
    → length (w ++ (spaces (suc n) ++ arg)) < 128
    → Dispatches x w n arg rest m
unfolding shell_round dispatch_read dispatch
shell_round_lem x w n arg rest m plain trimmed typed fits =
    let line = w ++ (spaces (suc n) ++ arg) in
    let prompted = print (text "kronk> ") m in
    let r = read_line_typed line rest (prompted.tasks, prompted.vga) typed fits in
    record {
      console = r.shown;
      answers =
          ap (λ o. dispatch_read x o prompted) r.reads
          ∙ ap
              (λ b. some (
                rest,
                if b
                    then prompts (record prompted { tasks = r.shown.0; vga = r.shown.1 })
                    else dispatch_to x (split_command line).0 (split_command line).1
                        (record prompted { tasks = r.shown.0; vga = r.shown.1 }),
              ))
              (not_empty w n arg)
          ∙ ap
              (λ s. some (
                rest,
                dispatch_to x s.0 s.1 (record prompted { tasks = r.shown.0; vga = r.shown.1 }),
              ))
              (split_command_lem w n arg plain trimmed);
    }
