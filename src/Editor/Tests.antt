-- ===== src/Editor/Tests.antt =====
-- The theorem on kernel/editor.c at a line that is typed and saved.
use kronked_os.Prelude.{ℕ, List, [], ◌∷◌}
use kronked_os.Task.Valid.Steps.{no_tasks}
use kronked_os.Samples.{console, heap, memory, disk}
use kronked_os.Editor.{Editing, Session}

abbrev session : Session
session = record { con = (no_tasks, console); heap = heap (memory (λ _ _. 0)); volume = disk }

abbrev empty : Editing
empty = record { buf = λ _. 0; len = 0 }

-- "hi"
abbrev typed : List (List ℕ)
typed = (104 ∷ 105 ∷ []) ∷ []
