-- ===== src/Editor/Text.antt =====
-- kernel/editor.c: the buffer as the text that it holds.
use kronked_os.Prelude.{
  ℕ, zero, suc, ◌+◌, ◌≡◌, refl, sym, ap, ◌∙◌, true, false, List, [], ◌∷◌, ◌++◌, leb, if◌then◌else◌,
  update, length, arith, Bool-cases, inl, inr,
}
use mathlib.Core.List.{append_assoc, append-nil}
use kronked_os.Prelude.Text.{text}
use kronked_os.Fat16.Files.{Bytes}
use kronked_os.Editor.{
  Editing, Session, go_on, command, add_line, put_byte, put_bytes, bytes_at, str_eq,
  editor_buf_size, say, show_buffer, add_message,
}
use kronked_os.Vga.Put.{vga_write}

-- The text in the buffer.
unfoldable pub contents : Editing → List ℕ
contents e = bytes_at e.buf e.len 0

cons_path : {x y : ℕ} {xs ys : List ℕ} → x ≡ y → xs ≡ ys → x ∷ xs ≡ y ∷ ys
cons_path h k = rw (h, k) refl

bytes_at-update :
    (buf : Bytes) (n i j c : ℕ)
    → j ≡ i + n
    → bytes_at (update buf j c) (suc n) i ≡ bytes_at buf n i ++ (c ∷ [])
unfolding bytes_at
bytes_at-update buf zero i j c e = cons_path (ground arith) refl
bytes_at-update buf (suc n) i j c e =
    cons_path (ground arith) (bytes_at-update buf n (i + 1) j c (omega arith))

contents-put_byte : (c : ℕ) (e : Editing) → contents (put_byte c e) ≡ contents e ++ (c ∷ [])
unfolding contents put_byte
contents-put_byte c e =
    let grown : e.len + 1 ≡ suc e.len = omega arith in
    ap (λ n. bytes_at (update e.buf e.len c) n 0) grown
    ∙ bytes_at-update e.buf e.len 0 e.len c (omega arith)

contents-put_bytes : (s : List ℕ) (e : Editing) → contents (put_bytes s e) ≡ contents e ++ s
unfolding put_bytes
contents-put_bytes [] e = sym (append-nil (contents e))
contents-put_bytes (c ∷ s) e =
    rw (contents-put_bytes s (put_byte c e), contents-put_byte c e)
      (append_assoc (contents e) (c ∷ []) s)

put_bytes-len : (s : List ℕ) (e : Editing) → (put_bytes s e).len ≡ e.len + length s
unfolding put_bytes put_byte
put_bytes-len [] e = omega arith
put_bytes-len (c ∷ s) e = omega (arith, put_bytes-len s (put_byte c e))

length-bytes_at : (buf : Bytes) (n i : ℕ) → length (bytes_at buf n i) ≡ n
unfolding bytes_at
length-bytes_at buf zero i = refl
length-bytes_at buf (suc n) i = ap suc (length-bytes_at buf n (i + 1))

pub length-contents : (e : Editing) → length (contents e) ≡ e.len
unfolding contents
length-contents e = length-bytes_at e.buf e.len 0

-- What a line does to the text: `.list` and a line with which it would have more than 4095 bytes leave
-- it.
unfoldable pub edited : List ℕ → List ℕ → List ℕ
edited line t =
    if str_eq line (text ".list")
    then t
    else if str_eq line (text ".clear")
    then []
    else if leb (length t + length line + 1) 4095
    then t ++ (line ++ (10 ∷ []))
    else t

unfoldable pub all_edited : List (List ℕ) → List ℕ → List ℕ
all_edited [] t = t
all_edited (l ∷ ls) t = all_edited ls (edited l t)

contents-add_line :
    (line : List ℕ) (e : Editing)
    → contents (add_line line e) ≡ (
        if leb (length (contents e) + length line + 1) 4095
        then contents e ++ (line ++ (10 ∷ []))
        else contents e)
unfolding add_line
contents-add_line line e =
    rw (length-contents e) (elim (Bool-cases (leb editor_buf_size (e.len + length line + 1))) [
      | inl full ↦
          let k : leb (e.len + length line + 1) 4095 ≡ false = ground (arith, full) in
          rw (full, k) refl
      | inr room ↦
          let k : leb (e.len + length line + 1) 4095 ≡ true = ground (arith, room) in
          rw (room, k)
            (rw (contents-put_byte, contents-put_bytes) (append_assoc (contents e) line (10 ∷ [])))
    ])

-- A line that ends the session.
abbrev pub Ends : List ℕ → Type 0
Ends line = (str_eq line (text ".save") ≡ true) × (str_eq line (text ".quit") ≡ true)

-- A line that is neither `.save` nor `.quit` goes on with its effect on the text.
pub record Continues (line : List ℕ) (e : Editing) (m : Session) : Type 0 where
  pub next : Editing
  pub session : Session
  pub goes : command line e m ≡ go_on next session
  pub holds : contents next ≡ edited line (contents e)
  pub volume : session.volume ≡ m.volume
  pub heap : session.heap ≡ m.heap

pub command_lem :
    (line : List ℕ) (e : Editing) (m : Session)
    → str_eq line (text ".save") ≡ false
    → str_eq line (text ".quit") ≡ false
    → Continues line e m
unfolding command edited contents say bytes_at
command_lem line e m hs hq = elim (Bool-cases (str_eq line (text ".list"))) [
  | inl l ↦ record {
    next = e;
    session =
        say (text "---\n") (record m { con = show_buffer e (vga_write (text "---\n") m.con) });
    goes = rw (hs, hq, l) refl;
    holds = rw l refl;
    volume = refl;
    heap = refl;
  }
  | inr l ↦ elim (Bool-cases (str_eq line (text ".clear"))) [
    | inl k ↦ record {
      next = record e { len = 0 };
      session = say (text "Buffer cleared.\n") m;
      goes = rw (hs, hq, l, k) refl;
      holds = rw (l, k) refl;
      volume = refl;
      heap = refl;
    }
    | inr k ↦ record {
      next = add_line line e;
      session = record m { con = add_message line e m.con };
      goes = rw (hs, hq, l, k) refl;
      holds = rw (l, k) (contents-add_line line e);
      volume = refl;
      heap = refl;
    }
  ]
]
