-- ===== src/Editor/Typing.antt =====
-- kernel/editor.c: a session from the keys that are typed to the file that is written.
use mathlib.Core.List.{append_assoc, append-nil}
use kronked_os.Prelude.{
  ℕ, ◌+◌, ◌<◌, ◌≡◌, refl, ap, ◌∙◌, true, false, List, [], ◌∷◌, ◌++◌, ◌==◌, length, arith,
  length-append, some,
}
use kronked_os.Prelude.Text.{text}
use kronked_os.Task.{Tasks}
use kronked_os.Heap.{kfree}
use kronked_os.Fat16.Files.{Bytes}
use kronked_os.Fat16.Store.{fat16_write_file}
use kronked_os.Vga.{Vga}
use kronked_os.Vga.Put.{vga_putc}
use kronked_os.Editor.{
  Editing, Session, str_eq, line_max, c_string, next_line, echo, read_loop, read_line, edit_loop,
  bytes_at,
}

-- A character that a line can hold.
abbrev pub Typed : ℕ → Type 0
Typed c = ((c == 0) ≡ false) × ((c == 8) ≡ false) × ((c == 10) ≡ false)

abbrev pub AllTyped : List ℕ → Type 0
AllTyped [] = true ≡ true
AllTyped (c ∷ s) = Typed c × AllTyped s

c_string_typed : (s : List ℕ) → AllTyped s → c_string s ≡ s
unfolding c_string
c_string_typed [] h = refl
c_string_typed (c ∷ s) h = rw h.0.0 (ap (λ t. c ∷ t) (c_string_typed s h.1))

AllTyped-append : (s t : List ℕ) → AllTyped s → AllTyped t → AllTyped (s ++ t)
AllTyped-append [] t h k = k
AllTyped-append (c ∷ s) t h k = (h.0, AllTyped-append s t h.1 k)

next_line-Typed :
    (c : ℕ) (line : List ℕ)
    → Typed c
    → length line + 1 < line_max
    → next_line line_max c line ≡ line ++ (c ∷ [])
unfolding next_line
next_line-Typed c line h room = ground (arith, h.1)

record Reads (s line rest : List ℕ) (con : Tasks × Vga) : Type 0 where
  pub shown : Tasks × Vga
  pub reads :
      read_loop line_max (s ++ (10 ∷ rest)) line con ≡ some (c_string (line ++ s), rest, shown)

read_loop_typed :
    (s line rest : List ℕ) (con : Tasks × Vga)
    → AllTyped s
    → length line + length s < line_max
    → Reads s line rest con
unfolding read_loop
read_loop_typed [] line rest con h room = record {
  shown = vga_putc 10 con;
  reads = rw (append-nil line) refl;
}
read_loop_typed (c ∷ s) line rest con h room =
    let ih =
      read_loop_typed s (line ++ (c ∷ [])) rest (echo line_max c line con) h.1
        (omega (arith, room, length-append line (c ∷ []))) in
    record {
      shown = ih.shown;
      reads =
          rw (h.0.2, next_line-Typed c line h.0 (omega arith))
            (ih.reads ∙ ap (λ t. some (c_string t, rest, ih.shown)) (append_assoc line (c ∷ []) s));
    }

-- A line that is typed to its end is read as it is.
pub record ReadsLine (s rest : List ℕ) (con : Tasks × Vga) : Type 0 where
  pub shown : Tasks × Vga
  pub reads : read_line line_max (s ++ (10 ∷ rest)) con ≡ some (s, rest, shown)

pub read_line_typed :
    (s rest : List ℕ) (con : Tasks × Vga) → AllTyped s → length s < line_max → ReadsLine s rest con
unfolding read_line
read_line_typed s rest con h room =
    let r = read_loop_typed s [] rest con h (omega arith) in
    record {
      shown = r.shown;
      reads = r.reads ∙ ap (λ t. some (t, rest, r.shown)) (c_string_typed s h);
    }

-- Lines that can be typed and that do not end the session.
abbrev pub Lines : List (List ℕ) → Type 0
Lines [] = true ≡ true
Lines (l ∷ ls) =
    AllTyped l
    × (length l < line_max)
    × (str_eq l (text ".save") ≡ false)
    × (str_eq l (text ".quit") ≡ false)
    × Lines ls

-- The keys of the lines, and `rest` behind them.
unfoldable pub keys_of : List (List ℕ) → List ℕ → List ℕ
keys_of [] rest = rest
keys_of (l ∷ ls) rest = l ++ (10 ∷ keys_of ls rest)

-- The session ends with the text `t` written to the file, whole, and the buffer at `p` given back.
pub record Saves (rounds : ℕ) (filename : List ℕ) (p : ℕ) (e : Editing) (keys rest : List ℕ)
    (m : Session) (t : List ℕ) : Type 0 where
  pub bytes : Bytes
  pub after : Session
  pub ends : edit_loop rounds filename p e keys m ≡ some (rest, after)
  pub holds : bytes_at bytes (length t) 0 ≡ t
  pub volume : after.volume ≡ (fat16_write_file filename bytes (length t) m.volume).1
  pub heap : after.heap ≡ kfree p m.heap
