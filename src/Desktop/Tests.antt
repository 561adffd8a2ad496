-- ===== src/Desktop/Tests.antt =====
-- The theorem on kernel/desktop.c at two rounds of a desktop that had a window before.
use kronked_os.Prelude.{
  ℕ, ◌+◌, ◌*◌, refl, true, false, none, some, List, [], ◌∷◌, ◌==◌, if◌then◌else◌,
}
use kronked_os.Prelude.Int.{pos}
use kronked_os.Task.{ready}
use kronked_os.Task.Valid.Steps.{no_tasks}
use kronked_os.Gui.{Devices}
use kronked_os.Samples.{machine, memory, task}
use kronked_os.Desktop.{Window, Desktop, Entries}
use kronked_os.Desktop.Run.{Other, desktop_run}
use kronked_os.Desktop.Safe.{Sound, TurnsKeep, RoundsKeep, desktop_run_lem}

abbrev window : ℕ → Window
window i = record {
  active = if i == 0 then true else false;
  x = pos 100;
  y = pos 90;
  w = pos 496;
  h = pos 360;
  title = [];
  hosted_task = none;
  buf_slot = i;
}

abbrev desktop : Desktop
desktop = record {
  windows = window;
  window_order = 0 ∷ [];
  focused_slot = some 0;
  dragging_window = none;
  drag_offset_x = pos 0;
  drag_offset_y = pos 0;
  prev_buttons = 0;
  quit_requested = false;
}

abbrev entries : Entries
entries = record {
  terminal_entries = λ n. 0x110000 + n;
  editor_entries = λ n. 0x111000 + n;
  term_buffers = λ n. 0x120000 + n * 2400;
  trampoline = 0x112000;
  kernel_dir = 0x100000;
  block = task 0 none ready;
}

-- The display stands in slot 2, with its framebuffer at 0xfd000000.
abbrev devices : Devices
devices = record {
  actual_x = 1024;
  actual_y = 768;
  config = λ slot offset.
      if slot == 2
      then (if offset == 8 then 0x03000000 else if offset == 16 then 0xfd000008 else 0x11111234)
      else 0xffffffff;
  video = λ _. 0;
}

-- A key waits in the second turn of the first round.
abbrev key_pressed : Other
key_pressed (d, m) = (d, record m { keyboard = record (m.keyboard) { kb_head = 1 } })

abbrev nothing : Other
nothing dm = dm

abbrev two_rounds : List (List Other)
two_rounds = (key_pressed ∷ nothing ∷ []) ∷ (nothing ∷ []) ∷ []

two_rounds-Keep : RoundsKeep two_rounds
unfolding RoundsKeep TurnsKeep
two_rounds-Keep = ((λ d m. refl, (λ d m. refl, refl)), ((λ d m. refl, refl), refl))

desktop_run_lem_example :
    Sound (desktop_run devices entries two_rounds desktop (machine no_tasks (memory (λ _ _. 0))))
desktop_run_lem_example =
    desktop_run_lem devices entries two_rounds desktop (machine no_tasks (memory (λ _ _. 0)))
      two_rounds-Keep
