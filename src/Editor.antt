-- ===== src/Editor.antt =====
-- kernel/editor.c: the line editor. `keys` are the characters that keyboard_getchar returns, in their
-- order; `none` is the wait for one that has not come.
pub mod Text
pub mod Typing
mod Tests
use kronked_os.Prelude.{
  ℕ, zero, suc, ◌+◌, ◌-◌, ◌/◌, ◌%◌, Bool, true, false, ◌&&◌, Option, none, some, List, [], ◌∷◌,
  ◌++◌, ◌==◌, ltb, leb, if◌then◌else◌, update, length, take,
}
use kronked_os.Prelude.Text.{text}
use kronked_os.Digits.{dec_digits}
use kronked_os.Task.{Tasks}
use kronked_os.Vga.{Vga}
use kronked_os.Vga.Put.{vga_putc, vga_write}
use kronked_os.Heap.{Heap, kmalloc, kfree}
use kronked_os.Fat16.{Volume}
use kronked_os.Fat16.Dir.{File, fat16_find_file}
use kronked_os.Fat16.Files.{Bytes, ReadResult, failed, done, running, fat16_read_file}
use kronked_os.Fat16.Store.{fat16_write_file}

-- `EDITOR_BUF_SIZE` and `LINE_MAX`
abbrev pub editor_buf_size : ℕ
editor_buf_size = 4096

abbrev pub line_max : ℕ
line_max = 128

-- The characters in front of the first 0.
unfoldable pub c_string : List ℕ → List ℕ
c_string [] = []
c_string (c ∷ s) = let rest = c_string s in if c == 0 then [] else c ∷ rest

-- The line and the echo behind one character that is not the end of the line.
unfoldable pub next_line : ℕ → ℕ → List ℕ → List ℕ
next_line max_len c line =
    if c == 8
    then take (length line - 1) line
    else if ltb (length line) (max_len - 1)
    then line ++ (c ∷ [])
    else line

unfoldable pub echo : ℕ → ℕ → List ℕ → Tasks × Vga → Tasks × Vga
echo max_len c line con =
    if c == 8
    then (if ltb 0 (length line) then vga_putc 8 con else con)
    else if ltb (length line) (max_len - 1)
    then vga_putc c con
    else con

-- The loop of `read_line`: the line, the keys that are left, and the console.
unfoldable pub read_loop :
    ℕ → List ℕ → List ℕ → Tasks × Vga → Option (List ℕ × List ℕ × (Tasks × Vga))
unfolding next_line echo c_string
read_loop max_len [] line con = none
read_loop max_len (c ∷ keys) line con =
    let rest = read_loop max_len keys (next_line max_len c line) (echo max_len c line con) in
    if c == 10 then some (c_string line, keys, vga_putc 10 con) else rest

unfoldable pub read_line : ℕ → List ℕ → Tasks × Vga → Option (List ℕ × List ℕ × (Tasks × Vga))
unfolding read_loop
read_line max_len keys con = read_loop max_len keys [] con

unfoldable pub str_eq : List ℕ → List ℕ → Bool
str_eq [] [] = true
str_eq [] (b ∷ bs) = false
str_eq (a ∷ as') [] = false
str_eq (a ∷ as') (b ∷ bs) = a == b && str_eq as' bs

-- `buf` up to `len`.
pub record Editing : Type 0 where
  pub buf : Bytes
  pub len : ℕ

-- `buf[len++] = c;`
unfoldable pub put_byte : ℕ → Editing → Editing
put_byte c e = record { buf = update e.buf e.len c; len = e.len + 1 }

unfoldable pub put_bytes : List ℕ → Editing → Editing
unfolding put_byte
put_bytes [] e = e
put_bytes (c ∷ s) e = put_bytes s (put_byte c e)

-- The first `n` bytes from `i` on.
unfoldable pub bytes_at : Bytes → ℕ → ℕ → List ℕ
bytes_at buf zero i = []
bytes_at buf (suc n) i = buf i ∷ bytes_at buf n (i + 1)

-- `for (j = 0; j < len; j++) vga_putc(buf[j]);`
unfoldable pub show_buffer : Editing → Tasks × Vga → Tasks × Vga
unfolding bytes_at
show_buffer e con = vga_write (bytes_at e.buf e.len 0) con

-- What a line that is no command does.
unfoldable pub add_line : List ℕ → Editing → Editing
unfolding put_bytes put_byte
add_line line e =
    if leb editor_buf_size (e.len + length line + 1) then e else put_byte 10 (put_bytes line e)

unfoldable pub add_message : List ℕ → Editing → Tasks × Vga → Tasks × Vga
add_message line e con =
    if leb editor_buf_size (e.len + length line + 1)
    then vga_write (text "Buffer full -- can't add more (try .save).\n") con
    else con

-- What `editor_run` changes besides its own variables.
pub record Session : Type 0 where
  pub con : Tasks × Vga
  pub heap : Heap
  pub volume : Volume

unfoldable pub say : List ℕ → Session → Session
say s m = record m { con = vga_write s m.con }

-- `.save` and `.quit` end the loop; `go_on` is its next round.
pub data Command : Type 0 where
  save quit : Command
  go_on : Editing → Session → Command

unfoldable pub command : List ℕ → Editing → Session → Command
unfolding say add_line add_message show_buffer
command line e m =
    if str_eq line (text ".save")
    then save
    else if str_eq line (text ".quit")
    then quit
    else if str_eq line (text ".list")
    then go_on e
        (say (text "---\n") (record m { con = show_buffer e (vga_write (text "---\n") m.con) }))
    else if str_eq line (text ".clear")
    then go_on (record e { len = 0 }) (say (text "Buffer cleared.\n") m)
    else go_on (add_line line e) (record m { con = add_message line e m.con })

-- The `.save` command, with the buffer at `p` on the heap.
unfoldable pub save_file : List ℕ → ℕ → Editing → Session → Session
save_file filename p e m =
    let (ok, v) = fat16_write_file filename e.buf e.len m.volume in
    record m {
      volume = v;
      con = vga_write (if ok then text "Saved.\n" else text "Save FAILED.\n") m.con;
      heap = kfree p m.heap;
    }

unfoldable pub quit_file : ℕ → Session → Session
quit_file p m = record m { con = vga_write (text "Discarded.\n") m.con; heap = kfree p m.heap }

-- A round of `editor_run`, with what the loop does `next`.
abbrev pub Next : Type 0
Next = Editing → List ℕ → Session → Option (List ℕ × Session)

unfoldable pub after_command :
    Next → List ℕ → ℕ → Editing → List ℕ → Session → Command → Option (List ℕ × Session)
unfolding save_file quit_file
after_command next filename p e keys m save = some (keys, save_file filename p e m)
after_command next filename p e keys m quit = some (keys, quit_file p m)
after_command next filename p e keys m (go_on e' m') = next e' keys m'

unfoldable pub after_line :
    Next
    → List ℕ
    → ℕ
    → Editing
    → Session
    → Option (List ℕ × List ℕ × (Tasks × Vga))
    → Option (List ℕ × Session)
unfolding after_command
after_line next filename p e m none = none
after_line next filename p e m (some (line, keys, con)) =
    let m' = record m { con = con } in after_command next filename p e keys m' (command line e m')

-- The loop, for at most `rounds` lines, with the buffer at `p` on the heap.
unfoldable pub edit_loop : ℕ → List ℕ → ℕ → Editing → List ℕ → Session → Option (List ℕ × Session)
unfolding after_line
edit_loop zero filename p e keys m = none
edit_loop (suc rounds) filename p e keys m =
    after_line (λ e' keys' m'. edit_loop rounds filename p e' keys' m') filename p e m
      (read_line line_max keys m.con)

unfoldable pub show_loaded : File → Editing → Session → Session
show_loaded f e m = say (text "\n---\n") (record m {
  con = show_buffer e (
      vga_write (text " bytes):\n---\n")
        (vga_write (dec_digits f.file_size) (vga_write (text "Loaded existing file (") m.con)));
})

-- What `fat16_read_file` has left, with `size` bytes asked for; `none` is a read that has not ended.
unfoldable pub loaded : File → Bytes → ℕ → ReadResult → Session → Option (Editing × Session)
unfolding show_loaded
loaded f old size running m = none
loaded f old size failed m = some (record { buf = old; len = 0 }, m)
loaded f old size (done buf) m =
    let e : Editing = record { buf = buf; len = size } in some (e, show_loaded f e m)

unfoldable pub load_size : File → ℕ
load_size f = if ltb (editor_buf_size - 1) f.file_size then editor_buf_size - 1 else f.file_size

-- `old` is what the memory of the buffer holds, and `rounds` bounds the loop of the read.
unfoldable pub load_file : ℕ → Option File → Bytes → Session → Option (Editing × Session)
unfolding loaded load_size
load_file rounds none old m = some (record { buf = old; len = 0 }, say (text "New file.\n") m)
load_file rounds (some f) old m =
    loaded f old (load_size f) (fat16_read_file rounds f old (load_size f) m.volume) m

unfoldable pub introduce : List ℕ → Session → Session
introduce filename m = say (text "  .clear  erase the buffer (start over)\n\n") (
    say (text "  .list   show current buffer\n") (
      say (text "  .quit   discard changes and exit\n") (
        say (text "  .save   write to disk and exit\n") (
          say (text "Type text; each Enter adds a line. Commands:\n")
            (say (text "'.\n") (say filename (say (text "Editing '") m)))))))

unfoldable pub edit_loaded :
    List ℕ → ℕ → List ℕ → Option (Editing × Session) → Option (List ℕ × Session)
unfolding introduce
edit_loaded filename p keys none = none
edit_loaded filename p keys (some (e, m)) =
    edit_loop (length keys + 1) filename p e keys (introduce filename m)

unfoldable pub editor_run : ℕ → List ℕ → Bytes → List ℕ → Session → Option (List ℕ × Session)
unfolding load_file edit_loaded
editor_run rounds filename old keys m =
    let (p, h) = kmalloc editor_buf_size m.heap in
    edit_loaded filename p keys
      (load_file rounds (fat16_find_file filename m.volume) old (record m { heap = h }))
