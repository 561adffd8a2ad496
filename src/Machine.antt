-- ===== src/Machine.antt =====
-- The state of the kernel's parts together, and memory as kernel code reaches it through a pointer that
-- user code has passed: kernel/syscall.c and kernel/idt.c work on it.
use kronked_os.Prelude.{
  ℕ, zero, suc, ◌+◌, ◌*◌, ◌/◌, ◌%◌, ◌^◌, Option, none, some, List, [], ◌∷◌, ◌==◌, if◌then◌else◌,
}
use kronked_os.Task.{Tasks}
use kronked_os.Vga.{Vga}
use kronked_os.Vga.Put.{vga_write}
use kronked_os.Keyboard.{Keyboard}
use kronked_os.Mouse.{Mouse}
use kronked_os.Heap.{Heap}
use kronked_os.Fat16.{Volume}
use kronked_os.Gui.{Gui}
use kronked_os.Paging.{Paging, read_word, write_word}
use kronked_os.Paging.Entry.{page_of}
use kronked_os.Paging.Map.{pte}

-- `struct_at` gives the address of a task's struct on the heap, by its id. CR3 stands in `tasks`,
-- as schedule sets it, and in the heap's `paging`.
pub record Machine : Type 0 where
  pub tasks : Tasks
  pub struct_at : ℕ → ℕ
  pub vga : Vga
  pub keyboard : Keyboard
  pub mouse : Mouse
  pub heap : Heap
  pub volume : Volume
  pub gui : Gui
  pub tick : ℕ

unfoldable pub with_paging : Paging → Machine → Machine
with_paging p m = record m { heap = record (m.heap) { paging = p } }

-- The tasks behind a call that may have switched to another one.
unfoldable pub with_tasks : Tasks → Machine → Machine
with_tasks s m = record m {
  tasks = s;
  heap = record (m.heap) { paging = record (m.heap.paging) { cr3 = s.cr3 } };
}

unfoldable pub print : List ℕ → Machine → Machine
print s m = let (tasks, vga) = vga_write s (m.tasks, m.vga) in record m { tasks = tasks; vga = vga }

unfoldable pub frame_of : Option ℕ → Option ℕ
frame_of none = none
frame_of (some e) = some (page_of e)

-- The address of the frame that the current directory gives a virtual address.
unfoldable pub physical : Paging → ℕ → Option ℕ
unfolding frame_of
physical s virt = frame_of (pte s s.cr3 virt)

-- Byte `k` of a word, and the word with another one there.
unfoldable pub byte_of : ℕ → ℕ → ℕ
byte_of word k = word / 256 ^ k % 256

unfoldable pub set_byte : ℕ → ℕ → ℕ → ℕ
set_byte word k b = word % 256 ^ k + b * 256 ^ k + word / 256 ^ (k + 1) * 256 ^ (k + 1)

unfoldable pub read_in_frame : Option ℕ → ℕ → Paging → Option ℕ
unfolding byte_of
read_in_frame none virt s = none
read_in_frame (some f) virt s = some (byte_of (read_word s f (virt % 4096 / 4)) (virt % 4))

-- `none` is a page fault in kernel mode.
unfoldable pub read_byte : ℕ → Paging → Option ℕ
unfolding read_in_frame
read_byte virt s = read_in_frame (physical s virt) virt s

unfoldable pub write_in_frame : Option ℕ → ℕ → ℕ → Paging → Option Paging
unfolding set_byte
write_in_frame none virt b s = none
write_in_frame (some f) virt b s =
    let i = virt % 4096 / 4 in some (write_word f i (set_byte (read_word s f i) (virt % 4) b) s)

-- No code sets CR0.WP, so a write in kernel mode does not look at the entry's writable bit.
unfoldable pub write_byte : ℕ → ℕ → Paging → Option Paging
unfolding write_in_frame
write_byte virt b s = write_in_frame (physical s virt) virt b s

-- The `n` low bytes of a word, the lowest first.
unfoldable pub write_bytes : ℕ → ℕ → ℕ → Option Paging → Option Paging
write_bytes zero virt word o = o
write_bytes (suc n) virt word none = none
write_bytes (suc n) virt word (some s) =
    write_bytes n ((virt + 1) % 2 ^ 32) (word / 256) (write_byte virt (word % 256) s)

unfoldable pub write_u32 : ℕ → ℕ → Option Paging → Option Paging
unfolding write_bytes
write_u32 virt word o = write_bytes 4 virt word o

-- A string at a virtual address, of fewer than `limit` characters.
unfoldable pub read_string : ℕ → ℕ → Paging → Option (List ℕ)
read_string zero virt s = none
read_string (suc limit) virt s = elim (read_byte virt s) [
  | none ↦ none
  | some c ↦ elim (read_string limit ((virt + 1) % 2 ^ 32) s) [
    | none ↦ if c == 0 then some [] else none
    | some rest ↦ if c == 0 then some [] else some (c ∷ rest)
  ]
]
