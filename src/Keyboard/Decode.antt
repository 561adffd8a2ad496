-- ===== src/Keyboard/Decode.antt =====
-- What kernel/keyboard.c makes of a sequence of scancodes.
use mathlib.Core.List.{append-nil, append_assoc}
use Prim.Native.Nat.{bit_and}
use kronked_os.Prelude.{
  ℕ, ◌+◌, ◌%◌, ◌<◌, ◌≤◌, ◌≡◌, refl, ap, ◌∙◌, sym, Bool, true, false, ◌||◌, List, [], ◌∷◌, ◌++◌,
  ◌==◌, ltb, leb, if◌then◌else◌, get_or, length, length-append, arith, ==_iff,
}
use kronked_os.Prelude.Bits.{all_below, all_below_sound}
use kronked_os.Keyboard.{
  Keyboard, scancode_ascii, scancode_ascii_shift, key_char, keyboard_callback,
}
use kronked_os.Keyboard.Buffer.{typed, InBounds, kb_buffer_push_lem}

-- Bit 7 of a scancode is the release flag, the others are the key.
abbrev flag_test : ℕ → Bool
flag_test s = if bit_and s 0x80 == 0 then ltb s 128 else leb 128 s

abbrev key_test : ℕ → Bool
key_test s = bit_and s 0x7f == s % 128

flag_table : all_below 256 flag_test ≡ true
unfolding all_below
flag_table = refl

key_table : all_below 256 key_test ≡ true
unfolding all_below
key_table = refl

flag_bit : (s : ℕ) → s < 256 → (bit_and s 0x80 == 0) ≡ ltb s 128
flag_bit s lt = ground (arith, all_below_sound 256 flag_test s flag_table lt)

key_bits : (s : ℕ) → s < 256 → bit_and s 0x7f ≡ s % 128
key_bits s lt = (==_iff _ _).0 (all_below_sound 256 key_test s key_table lt)

-- The shift keys set and clear the shift state; any other key keeps it.
unfoldable pub shift_after : Bool → ℕ → Bool
shift_after shift s =
    if s == 0x2a || s == 0x36 then true else if s == 0xaa || s == 0xb6 then false else shift

-- The character of a key, with and without a shift key held.
abbrev pub char_of : Bool → ℕ → ℕ
char_of true s = get_or scancode_ascii_shift s 0
char_of false s = get_or scancode_ascii s 0

key_char_lem : (shift : Bool) (s : ℕ) → key_char shift s ≡ char_of shift s
unfolding key_char
key_char_lem true s = refl
key_char_lem false s = refl

-- A key that goes down and has a character types it.
unfoldable pub emits : Bool → ℕ → List ℕ
emits shift s =
    if s == 0x2a || s == 0x36 || leb 128 s || char_of shift s == 0 then [] else char_of shift s ∷ []

-- The text of a sequence of scancodes.
unfoldable pub decode : Bool → List ℕ → List ℕ
unfolding shift_after emits
decode shift [] = []
decode shift (s ∷ ss) = emits shift s ++ decode (shift_after shift s) ss

-- The interrupts in order.
unfoldable pub run_codes : List ℕ → Keyboard → Keyboard
run_codes [] k = k
run_codes (s ∷ ss) k = run_codes ss (keyboard_callback s k)

abbrev pub AreBytes : List ℕ → Type 0
AreBytes [] = Unit {0}
AreBytes (s ∷ ss) = (s < 256) × AreBytes ss

-- The same by the driver's own lookup.
unfoldable key_emits : Bool → ℕ → List ℕ
key_emits shift s =
    if s == 0x2a || s == 0x36 || leb 128 s || key_char shift s == 0
    then []
    else key_char shift s ∷ []

key_emits_lem : (shift : Bool) (s : ℕ) → emits shift s ≡ key_emits shift s
unfolding emits key_emits
key_emits_lem shift s = rw (key_char_lem shift s) refl

callback_key :
    (k : Keyboard) (s : ℕ)
    → InBounds k
    → s < 256
    → length (typed k) + length (key_emits k.shift_held s) ≤ 255
    → (typed (keyboard_callback s k) ≡ typed k ++ key_emits k.shift_held s)
      × InBounds (keyboard_callback s k)
      × ((keyboard_callback s k).shift_held ≡ shift_after k.shift_held s)
unfolding keyboard_callback key_emits shift_after typed
callback_key k s b lt room = ground (
  arith,
  flag_bit s lt,
  key_bits s lt,
  kb_buffer_push_lem k (key_char k.shift_held s) b,
  append-nil (typed k),
)

-- One scancode, with room in the buffer for its character: the callback buffers what the scancode
-- types, behind the others, and keeps the shift state that it leads to.
pub keyboard_callback_lem :
    (k : Keyboard) (s : ℕ)
    → InBounds k
    → s < 256
    → length (typed k) + length (emits k.shift_held s) ≤ 255
    → (typed (keyboard_callback s k) ≡ typed k ++ emits k.shift_held s)
      × InBounds (keyboard_callback s k)
      × ((keyboard_callback s k).shift_held ≡ shift_after k.shift_held s)
keyboard_callback_lem k s b lt room =
    let e = key_emits_lem k.shift_held s in rw e (callback_key k s b lt (rw e at room))

-- While the text fits behind what already waits, the driver buffers exactly the characters that the
-- scancodes stand for, in order: presses type, releases do not, and the shift keys choose the table.
pub run_codes-decode :
    (ss : List ℕ) (k : Keyboard)
    → InBounds k
    → AreBytes ss
    → length (typed k) + length (decode k.shift_held ss) ≤ 255
    → typed (run_codes ss k) ≡ typed k ++ decode k.shift_held ss
unfolding run_codes decode
run_codes-decode [] k b bytes room = sym (append-nil (typed k))
run_codes-decode (s ∷ ss) k b (lt, bytes) room =
    let sh = k.shift_held in
    let total = length-append {0} (emits sh s) (decode (shift_after sh s) ss) in
    let (text, b', shift) = keyboard_callback_lem k s b lt (omega (arith, total)) in
    let joined = length-append {0} (typed k) (emits sh s) in
    let rest =
      run_codes-decode ss (keyboard_callback s k) b' bytes
        (rw (text, shift) (omega (arith, total, joined))) in
    rest
    ∙ ap (λ l. l ++ decode (keyboard_callback s k).shift_held ss) text
    ∙ ap (λ x. (typed k ++ emits sh s) ++ decode x ss) shift
    ∙ append_assoc (typed k) (emits sh s) (decode (shift_after sh s) ss)
