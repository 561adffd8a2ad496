-- ===== src/Mouse/Tests.antt =====
-- The theorem on kernel/mouse.c at two packets.
use kronked_os.Prelude.{◌≡◌, refl, [], ◌∷◌, arith}
use kronked_os.Prelude.Int.{pos}
use kronked_os.Prelude.Bits.{has_bit}
use kronked_os.Samples.{mouse}
use kronked_os.Mouse.{mouse_init, half}
use kronked_os.Mouse.Packets.{Packet, Marked, pointer, bytes, receive, all_moved, mouse_packets}

abbrev first : Packet
first = record { noise = 0x00 ∷ 0x10 ∷ []; status = 0x08; right = 3; up = 3 }

-- 6 to the left, 2 down, with the left button.
abbrev second : Packet
second = record { noise = []; status = 0x39; right = 250; up = 254 }

first-Marked : Marked (first ∷ second ∷ [])
unfolding has_bit
first-Marked = ((refl, (refl, refl)), refl, (refl, refl, refl))

mouse_packets_example :
    pointer (receive (bytes (first ∷ second ∷ [])) (mouse_init (pos 1024) (pos 768) mouse))
    ≡ all_moved
        (pos 1024)
        (pos 768)
        (record (pointer mouse) { x = half (pos 1024); y = half (pos 768) })
        (second ∷ [])
mouse_packets_example =
    mouse_packets (pos 1024) (pos 768) first (second ∷ []) mouse first-Marked (omega arith)
      (omega arith)
