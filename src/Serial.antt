-- ===== src/Serial.antt =====
-- kernel/serial.c: the debug output. The port is the list of the bytes sent, the latest last: the
-- wait for an empty transmitter is the device's.
use kronked_os.Prelude.{ℕ, ◌+◌, List, [], ◌∷◌, ◌++◌, ◌==◌, if◌then◌else◌}

abbrev pub com1 : ℕ
com1 = 0x3f8

-- The bytes that `serial_init` writes, with their ports.
abbrev pub serial_init : List (ℕ × ℕ)
serial_init =
    (com1 + 1, 0x00)
    ∷ (com1 + 3, 0x80)
    ∷ (com1 + 0, 0x03)
    ∷ (com1 + 1, 0x00)
    ∷ (com1 + 3, 0x03)
    ∷ (com1 + 2, 0xc7)
    ∷ (com1 + 4, 0x0b)
    ∷ []

unfoldable pub serial_putc : ℕ → List ℕ → List ℕ
serial_putc c sent = sent ++ (c ∷ [])

unfoldable pub serial_write : List ℕ → List ℕ → List ℕ
unfolding serial_putc
serial_write [] sent = sent
serial_write (c ∷ s) sent =
    serial_write s (serial_putc c (if c == 10 then serial_putc 13 sent else sent))
