-- ===== src/Shell/Tests.antt =====
-- The theorem on kernel/shell.c at the keys of a command that deletes a file.
use kronked_os.Prelude.{ℕ, refl, none, List, [], ◌∷◌, ◌++◌, arith}
use kronked_os.Task.{ready}
use kronked_os.Task.Valid.Steps.{no_tasks}
use kronked_os.Samples.{machine, memory, task}
use kronked_os.Machine.{Machine}
use kronked_os.Editor.Typing.{AllTyped}
use kronked_os.Shell.{ShellContext, spaces}
use kronked_os.Shell.Command.{Dispatches, shell_round_lem}

abbrev context : ShellContext
context = record { rounds = 100; old = λ _. 0; trampoline = 0x112000; block = task 0 none ready }

abbrev booted_machine : Machine
booted_machine = machine no_tasks (memory (λ _ _. 0))

abbrev rm : List ℕ
rm = b'r' ∷ b'm' ∷ []

abbrev file_a : List ℕ
file_a = b'a' ∷ []

rm_a-AllTyped : AllTyped (rm ++ (spaces 2 ++ file_a))
unfolding spaces
rm_a-AllTyped = (
  (refl, refl, refl),
  ((refl, refl, refl), ((refl, refl, refl), ((refl, refl, refl), ((refl, refl, refl), refl)))),
)

shell_round_lem_example : Dispatches context rm 1 file_a (b'l' ∷ []) booted_machine
unfolding spaces
shell_round_lem_example =
    shell_round_lem context rm 1 file_a (b'l' ∷ []) booted_machine (refl, (refl, refl)) refl
      rm_a-AllTyped (omega arith)
