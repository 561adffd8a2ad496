-- ===== src/Keyboard.antt =====
-- kernel/keyboard.c: scancode decoding and the global ring buffer of typed characters.
pub mod Buffer
pub mod Decode
mod Tests
use Prim.Native.Nat.{bit_and}
use kronked_os.Prelude.{
  ℕ, ◌+◌, ◌%◌, ◌<◌, Bool, true, false, not, ◌&&◌, ◌||◌, Option, none, some, List, [], ◌∷◌, ◌==◌,
  ltb, if◌then◌else◌, update, get_or,
}
use kronked_os.Task.{Tasks}
use kronked_os.Task.Input.{
  task_current_uses_input_redirect, task_current_input_has_char, task_current_input_getchar,
}

-- `scancode_ascii`; the entries behind the last one written are 0.
abbrev pub scancode_ascii : List ℕ
scancode_ascii =
    0 ∷ 27 ∷ b'1' ∷ b'2' ∷ b'3' ∷ b'4' ∷ b'5' ∷ b'6' ∷ b'7' ∷ b'8' ∷ b'9' ∷ b'0' ∷ b'-' ∷ b'=' ∷ 8
    ∷ 9 ∷ b'q' ∷ b'w' ∷ b'e' ∷ b'r' ∷ b't' ∷ b'y' ∷ b'u' ∷ b'i' ∷ b'o' ∷ b'p' ∷ b'[' ∷ b']' ∷ 10 ∷ 0
    ∷ b'a' ∷ b's' ∷ b'd' ∷ b'f' ∷ b'g' ∷ b'h' ∷ b'j' ∷ b'k' ∷ b'l' ∷ b';' ∷ 39 ∷ b'`' ∷ 0 ∷ 92
    ∷ b'z' ∷ b'x' ∷ b'c' ∷ b'v' ∷ b'b' ∷ b'n' ∷ b'm' ∷ b',' ∷ b'.' ∷ b'/' ∷ 0 ∷ b'*' ∷ 0 ∷ b' ' ∷ 0
    ∷ []

-- `scancode_ascii_shift`
abbrev pub scancode_ascii_shift : List ℕ
scancode_ascii_shift =
    0 ∷ 27 ∷ b'!' ∷ b'@' ∷ b'#' ∷ b'$' ∷ b'%' ∷ b'^' ∷ b'&' ∷ b'*' ∷ b'(' ∷ b')' ∷ b'_' ∷ b'+' ∷ 8
    ∷ 9 ∷ b'Q' ∷ b'W' ∷ b'E' ∷ b'R' ∷ b'T' ∷ b'Y' ∷ b'U' ∷ b'I' ∷ b'O' ∷ b'P' ∷ b'{' ∷ b'}' ∷ 10 ∷ 0
    ∷ b'A' ∷ b'S' ∷ b'D' ∷ b'F' ∷ b'G' ∷ b'H' ∷ b'J' ∷ b'K' ∷ b'L' ∷ b':' ∷ b'"' ∷ b'~' ∷ 0 ∷ b'|'
    ∷ b'Z' ∷ b'X' ∷ b'C' ∷ b'V' ∷ b'B' ∷ b'N' ∷ b'M' ∷ b'<' ∷ b'>' ∷ b'?' ∷ 0 ∷ b'*' ∷ 0 ∷ b' ' ∷ 0
    ∷ []

-- `KB_BUF_SIZE`
abbrev pub kb_buf_size : ℕ
kb_buf_size = 256

-- The static variables of keyboard.c.
pub record Keyboard : Type 0 where
  pub kb_buffer : ℕ → ℕ
  pub kb_head : ℕ
  pub kb_tail : ℕ
  pub shift_held : Bool

unfoldable pub kb_buffer_push : ℕ → Keyboard → Keyboard
kb_buffer_push c k =
    let next = (k.kb_head + 1) % kb_buf_size in
    if next == k.kb_tail
    then k
    else record k { kb_buffer = update k.kb_buffer k.kb_head c; kb_head = next }

unfoldable pub key_char : Bool → ℕ → ℕ
key_char shift code = get_or (if shift then scancode_ascii_shift else scancode_ascii) code 0

-- What `keyboard_callback` does with a key that goes down.
unfoldable pub key_down : ℕ → Keyboard → Keyboard
key_down code k = let c = key_char k.shift_held code in if c == 0 then k else kb_buffer_push c k

-- `scancode` is the byte that the controller holds at port 0x60.
unfoldable pub keyboard_callback : ℕ → Keyboard → Keyboard
unfolding key_down key_char kb_buffer_push
keyboard_callback scancode k =
    let released = not (bit_and scancode 0x80 == 0) in
    let code = bit_and scancode 0x7f in
    if code == 0x2a || code == 0x36
    then record k { shift_held = not released }
    else if released
    then k
    else if ltb code 128
    then key_down code k
    else k

unfoldable pub keyboard_has_char : Tasks → Keyboard → Bool
keyboard_has_char s k =
    if task_current_uses_input_redirect s
    then task_current_input_has_char s
    else not (k.kb_head == k.kb_tail)

-- The read behind the wait.
unfoldable pub take_key : Keyboard → ℕ × Keyboard
take_key k = (k.kb_buffer k.kb_tail, record k { kb_tail = (k.kb_tail + 1) % kb_buf_size })

unfoldable pub get_redirected : Tasks → Keyboard → Option (ℕ × Tasks × Keyboard)
get_redirected s k =
    if task_current_input_has_char s
    then (let (c, s') = task_current_input_getchar s in some (c, s', k))
    else none

unfoldable pub get_hardware : Tasks → Keyboard → Option (ℕ × Tasks × Keyboard)
unfolding take_key
get_hardware s k =
    if k.kb_head == k.kb_tail then none else let (c, k') = take_key k in some (c, s, k')

-- `none` is the `hlt` of a wait that goes on.
unfoldable pub keyboard_getchar : Tasks → Keyboard → Option (ℕ × Tasks × Keyboard)
unfolding get_redirected get_hardware
keyboard_getchar s k =
    if task_current_uses_input_redirect s then get_redirected s k else get_hardware s k
