-- ===== src/Mouse.antt =====
-- kernel/mouse.c: the PS/2 mouse, as the interrupt handler assembles its packets. The waits for the
-- controller and what it answers are the device's.
pub mod Packets
mod Tests
use Prim.Native.Nat.{bit_and, bit_or}
use kronked_os.Prelude.{
  ℕ, ◌+◌, ◌/◌, Bool, true, false, not, ◌&&◌, List, [], ◌∷◌, ◌++◌, ◌==◌, ltb, if◌then◌else◌, update,
}
use kronked_os.Prelude.Bits.{has_bit}
use kronked_os.Prelude.Int.{ℤ, pos, negsuc, ltb_ℤ, ◌+ℤ◌, ◌-ℤ◌}

-- The static variables of mouse.c.
pub record Mouse : Type 0 where
  pub screen_w : ℤ
  pub screen_h : ℤ
  pub mouse_x : ℤ
  pub mouse_y : ℤ
  pub mouse_buttons : ℕ
  pub mouse_dirty : Bool
  pub packet : ℕ → ℕ
  pub packet_index : ℕ
  pub discard_next_packet : Bool

-- `int dx = packet[1]; if (status & 0x10) dx -= 256;`, and the same with bit 5 for `dy`.
unfoldable pub delta : Bool → ℕ → ℤ
delta negative byte = if negative then pos byte -ℤ pos 256 else pos byte

-- The two tests of a coordinate, in their order.
unfoldable pub keep_above : ℤ → ℤ
keep_above x = if ltb_ℤ x (pos 0) then pos 0 else x

unfoldable pub keep_below : ℤ → ℤ → ℤ
keep_below size x = if ltb_ℤ x size then x else size -ℤ pos 1

unfoldable pub move_pointer : Mouse → Mouse
unfolding delta keep_above keep_below
move_pointer m =
    let status = m.packet 0 in
    record m {
      mouse_buttons = bit_and status 7;
      mouse_x =
          keep_below m.screen_w (keep_above (m.mouse_x +ℤ delta (has_bit status 4) (m.packet 1)));
      mouse_y =
          keep_below m.screen_h (keep_above (m.mouse_y -ℤ delta (has_bit status 5) (m.packet 2)));
      mouse_dirty = true;
    }

-- What follows `packet_index = 0;`.
unfoldable pub end_packet : Mouse → Mouse
end_packet m =
    if m.discard_next_packet then record m { discard_next_packet = false } else move_pointer m

unfoldable pub store_byte : ℕ → Mouse → Mouse
unfolding end_packet
store_byte byte m =
    if ltb (m.packet_index + 1) 3
    then record m {
      packet = update m.packet m.packet_index byte;
      packet_index = m.packet_index + 1;
    }
    else end_packet (record m { packet = update m.packet m.packet_index byte; packet_index = 0 })

-- `byte` is the byte at port 0x60.
unfoldable pub mouse_callback : ℕ → Mouse → Mouse
unfolding store_byte
mouse_callback byte m =
    if (m.packet_index == 0) && not (has_bit byte 3) then m else store_byte byte m

-- `/` on an `int` rounds towards 0.
unfoldable pub half : ℤ → ℤ
half (pos n) = pos (n / 2)
half (negsuc n) = pos 0 -ℤ pos ((n + 1) / 2)

-- The writes of `mouse_write`.
unfoldable pub mouse_write : ℕ → List (ℕ × ℕ)
mouse_write val = (0x64, 0xd4) ∷ (0x60, val) ∷ []

-- The bytes that `mouse_init` writes, with their ports, where the controller's configuration byte
-- reads as `status`.
unfoldable pub init_writes : ℕ → List (ℕ × ℕ)
unfolding mouse_write
init_writes status =
    (0x64, 0xa8)
    ∷ (0x64, 0x20)
    ∷ (0x64, 0x60)
    ∷ (0x60, bit_and (bit_or status 0x02) 0xdf)
    ∷ (mouse_write 0xf6 ++ mouse_write 0xf4)

unfoldable pub mouse_init : ℤ → ℤ → Mouse → Mouse
unfolding half
mouse_init screen_width screen_height m = record m {
  screen_w = screen_width;
  screen_h = screen_height;
  mouse_x = half screen_width;
  mouse_y = half screen_height;
  packet_index = 0;
  discard_next_packet = true;
}

unfoldable pub mouse_consume_dirty : Mouse → Bool × Mouse
mouse_consume_dirty m =
    if m.mouse_dirty then (true, record m { mouse_dirty = false }) else (false, m)
