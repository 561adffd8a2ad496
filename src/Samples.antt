-- ===== src/Samples.antt =====
-- Small states of the kernel's parts, for the tests of the modules that work on several of them.
use kronked_os.Prelude.{ℕ, ◌+◌, ◌*◌, true, false, Option, List, [], ◌∷◌}
use kronked_os.Prelude.Int.{pos}
use kronked_os.Pmm.Tests.{booted}
use kronked_os.Paging.{Paging, Frame}
use kronked_os.Heap.{Heap}
use kronked_os.Task.{Task, Tasks, TaskState}
use kronked_os.Keyboard.{Keyboard}
use kronked_os.Mouse.{Mouse}
use kronked_os.Vga.{Vga}
use kronked_os.Fb.{Framebuffer}
use kronked_os.Fat16.{Volume}
use kronked_os.Gui.{Gui}
use kronked_os.Machine.{Machine}

abbrev pub screen : Framebuffer
screen = record { fb = λ _. 0; fb_width = 4; fb_height = 3; fb_pitch_px = 5 }

abbrev pub console : Vga
console = record {
  vga_memory = λ _. 0;
  cursor_row = 0;
  cursor_col = 0;
  color = 15;
  real_screen_buf = λ _. 0;
  real_screen_initialized = false;
  gui_active = false;
  screen = screen;
  buffers = λ _ _. 0;
  serial = [];
}

abbrev pub memory : (ℕ → Frame) → Paging
memory mem = record {
  pmm = booted;
  mem = mem;
  page_directory = 0x100000;
  page_tables = 0x110000;
  kernel_directory_phys = 0x100000;
  cr3 = 0x100000;
}

abbrev pub heap : Paging → Heap
heap p = record {
  heap_end = 0x404000;
  blocks = record { addr = 0x400000; size = 16372; free = true } ∷ [];
  paging = p;
}

abbrev pub mouse : Mouse
mouse = record {
  screen_w = pos 1024;
  screen_h = pos 768;
  mouse_x = pos 512;
  mouse_y = pos 384;
  mouse_buttons = 0;
  mouse_dirty = false;
  packet = λ _. 0;
  packet_index = 0;
  discard_next_packet = false;
}

abbrev pub keyboard : Keyboard
keyboard = record { kb_buffer = λ _. 0; kb_head = 0; kb_tail = 0; shift_held = false }

abbrev pub disk : Volume
disk = record {
  bpb = record {
    bytes_per_sector = 512;
    sectors_per_cluster = 1;
    reserved_sector_count = 1;
    num_fats = 2;
    root_entry_count = 272;
    total_sectors_16 = 100;
    sectors_per_fat = 1;
  };
  fat_start_lba = 1;
  root_dir_start_lba = 3;
  root_dir_sectors = 17;
  data_start_lba = 20;
  mounted = true;
  drive = record { sectors = λ _ _. 0; bad = λ _. false };
}

abbrev pub gui : Gui
gui = record { g_fb_phys = 0; g_fb_pitch = 0; g_gui_ready = false; screen = screen }

abbrev pub machine : Tasks → Paging → Machine
machine tasks p = record {
  tasks = tasks;
  struct_at = λ id. 0x402000 + id * 256;
  vga = console;
  keyboard = keyboard;
  mouse = mouse;
  heap = heap p;
  volume = disk;
  gui = gui;
  tick = 0;
}

abbrev pub task : ℕ → Option ℕ → TaskState → Task
task id parent state = record {
  id = id;
  esp = 0x400100 + id;
  stack = [];
  entry = 0x100000;
  is_user = true;
  user_entry = 0;
  user_stack_top = 0;
  page_directory = 0x100000;
  kernel_stack_top = 0x402000;
  state = state;
  parent = parent;
  exit_code = 7;
  use_input_redirect = false;
  input_queue = λ _. 97;
  input_head = 0;
  input_tail = 0;
  vga_redirect_buf = 0;
  vga_redirect_cols = 0;
  vga_redirect_rows = 0;
  vga_cursor_row = 0;
  vga_cursor_col = 0;
  vga_redirect_dirty = false;
}

abbrev pub tasks : List Task → Tasks
tasks ring = record {
  ring = ring;
  next_task_id = 3;
  scheduling_enabled = true;
  task_count = 2;
  tss_esp0 = 0x402000;
  cr3 = 0x100000;
  halted = false;
}
