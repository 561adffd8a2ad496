-- ===== src/Mouse/Packets.antt =====
-- kernel/mouse.c: the driver against packets as the mouse sends them.
use Prim.Native.Nat.{bit_and}
use kronked_os.Prelude.{
  ℕ, ◌≡◌, refl, ap, ◌∙◌, Bool, true, false, List, [], ◌∷◌, ◌++◌, if◌then◌else◌, update, arith,
}
use kronked_os.Prelude.Bits.{has_bit}
use kronked_os.Prelude.Int.{ℤ, pos, ltb_ℤ, ◌+ℤ◌, ◌-ℤ◌, ◌≤ℤ◌}
use kronked_os.Mouse.{
  Mouse, mouse_callback, store_byte, end_packet, move_pointer, delta, keep_above, keep_below,
  mouse_init, half,
}

-- A packet as the mouse means it: the buttons' and the signs' byte, and the two distances; and the
-- bytes that come before it on the line.
pub record Packet : Type 0 where
  pub noise : List ℕ
  pub status : ℕ
  pub right : ℕ
  pub up : ℕ

-- What the rest of the kernel sees of the mouse.
pub record Pointer : Type 0 where
  pub x : ℤ
  pub y : ℤ
  pub buttons : ℕ
  pub dirty : Bool

unfoldable pub pointer : Mouse → Pointer
pointer m = record {
  x = m.mouse_x;
  y = m.mouse_y;
  buttons = m.mouse_buttons;
  dirty = m.mouse_dirty;
}

-- The number from `low` to `high` that is the closest to `x`.
unfoldable pub clamp : ℤ → ℤ → ℤ → ℤ
clamp low high x = if ltb_ℤ x low then low else if ltb_ℤ high x then high else x

-- A number of nine bits in two's complement.
unfoldable pub nine_bits : Bool → ℕ → ℤ
nine_bits true n = pos n -ℤ pos 256
nine_bits false n = pos n

unfoldable pub moved : ℤ → ℤ → Pointer → Packet → Pointer
unfolding clamp nine_bits
moved w h p k = record {
  x = clamp (pos 0) (w -ℤ pos 1) (p.x +ℤ nine_bits (has_bit k.status 4) k.right);
  y = clamp (pos 0) (h -ℤ pos 1) (p.y -ℤ nine_bits (has_bit k.status 5) k.up);
  buttons = bit_and k.status 7;
  dirty = true;
}

unfoldable pub all_moved : ℤ → ℤ → Pointer → List Packet → Pointer
all_moved w h p [] = p
all_moved w h p (k ∷ ks) = all_moved w h (moved w h p k) ks

unfoldable pub bytes : List Packet → List ℕ
bytes [] = []
bytes (k ∷ ks) = k.noise ++ k.status ∷ k.right ∷ k.up ∷ bytes ks

-- One interrupt for each byte.
unfoldable pub receive : List ℕ → Mouse → Mouse
receive [] m = m
receive (b ∷ bs) m = receive bs (mouse_callback b m)

-- No byte of the list can begin a packet.
abbrev pub Noise : List ℕ → Type 0
Noise [] = true ≡ true
Noise (b ∷ bs) = (has_bit b 3 ≡ false) × Noise bs

-- Bit 3 of every packet's first byte is set.
abbrev pub Marked : List Packet → Type 0
Marked [] = true ≡ true
Marked (k ∷ ks) = Noise k.noise × (has_bit k.status 3 ≡ true) × Marked ks

clamp_lem :
    (w : ℤ) (x : ℤ) → pos 1 ≤ℤ w → keep_below w (keep_above x) ≡ clamp (pos 0) (w -ℤ pos 1) x
unfolding keep_below keep_above clamp ◌-ℤ◌
clamp_lem w x h = ground arith

-- Between two packets, with `discard` for what happens to the next one.
abbrev pub between : Bool → Mouse → Mouse
between discard m = record m { packet_index = 0; discard_next_packet = discard }

abbrev three : Packet → Mouse → Mouse
three k m = mouse_callback k.up (mouse_callback k.right (mouse_callback k.status m))

abbrev loaded : Packet → Mouse → Mouse
loaded k m = record m { packet = update (update (update m.packet 0 k.status) 1 k.right) 2 k.up }

three_lem :
    (discard : Bool) (k : Packet) (m : Mouse)
    → has_bit k.status 3 ≡ true
    → three k (between discard m) ≡ end_packet (between discard (loaded k m))
unfolding mouse_callback store_byte
three_lem discard k m h = rw h refl

delta-nine_bits : (b : Bool) (n : ℕ) → delta b n ≡ nine_bits b n
unfolding delta nine_bits
delta-nine_bits true n = refl
delta-nine_bits false n = refl

abbrev pointer_at : ℤ → ℤ → ℕ → Pointer
pointer_at x y b = record { x = x; y = y; buttons = b; dirty = true }

same_pointer : (x x' y y' : ℤ) (b : ℕ) → x ≡ x' → y ≡ y' → pointer_at x y b ≡ pointer_at x' y' b
same_pointer x x' y y' b h k = rw (h, k) refl

move_lem :
    (k : Packet) (m : Mouse)
    → pos 1 ≤ℤ m.screen_w
    → pos 1 ≤ℤ m.screen_h
    → pointer (move_pointer (loaded k m)) ≡ moved m.screen_w m.screen_h (pointer m) k
unfolding pointer move_pointer moved
move_lem k m hw hh =
    same_pointer _ _ _ _ _
      (clamp_lem m.screen_w (m.mouse_x +ℤ delta (has_bit k.status 4) k.right) hw
        ∙ ap (λ d. clamp (pos 0) (m.screen_w -ℤ pos 1) (m.mouse_x +ℤ d))
            (delta-nine_bits (has_bit k.status 4) k.right))
      (clamp_lem m.screen_h (m.mouse_y -ℤ delta (has_bit k.status 5) k.up) hh
        ∙ ap (λ d. clamp (pos 0) (m.screen_h -ℤ pos 1) (m.mouse_y -ℤ d))
            (delta-nine_bits (has_bit k.status 5) k.up))

receive-append : (as' bs : List ℕ) (m : Mouse) → receive (as' ++ bs) m ≡ receive bs (receive as' m)
unfolding receive
receive-append [] bs m = refl
receive-append (a ∷ as') bs m = receive-append as' bs (mouse_callback a m)

receive-Noise :
    (bs : List ℕ) (d : Bool) (m : Mouse) → Noise bs → receive bs (between d m) ≡ between d m
unfolding receive mouse_callback
receive-Noise [] d m h = refl
receive-Noise (b ∷ bs) d m h = rw h.0 (receive-Noise bs d m h.1)

receive_packet :
    (d : Bool) (k : Packet) (bs : List ℕ) (m : Mouse)
    → Noise k.noise
    → has_bit k.status 3 ≡ true
    → receive (k.noise ++ k.status ∷ k.right ∷ k.up ∷ bs) (between d m)
      ≡ receive bs (end_packet (between d (loaded k m)))
unfolding receive
receive_packet d k bs m hn hs =
    rw (receive-append, receive-Noise k.noise d m hn) (ap (receive bs) (three_lem d k m hs))

nothing_read : (m : Mouse) → pointer (receive [] (between false m)) ≡ pointer m
unfolding receive pointer
nothing_read m = refl

receive_packets :
    (ks : List Packet) (m : Mouse)
    → Marked ks
    → pos 1 ≤ℤ m.screen_w
    → pos 1 ≤ℤ m.screen_h
    → pointer (receive (bytes ks) (between false m))
      ≡ all_moved m.screen_w m.screen_h (pointer m) ks
unfolding bytes all_moved move_pointer end_packet
receive_packets [] m h hw hh = nothing_read m
receive_packets (k ∷ ks) m h hw hh =
    rw (receive_packet false k (bytes ks) m h.0 h.1, ← move_lem k m hw hh)
      (receive_packets ks (move_pointer (loaded k m)) h.2 hw hh)

-- After mouse_init for a screen of at least one pixel, the mouse's first packet is dropped, and
-- every later one moves the pointer by its two signed distances of nine bits, upwards for a
-- positive second one, to the closest place on the screen, and sets the buttons; bytes in front of a
-- packet that cannot begin one are skipped.
pub mouse_packets :
    (w h : ℤ) (first : Packet) (ks : List Packet) (m : Mouse)
    → Marked (first ∷ ks)
    → pos 1 ≤ℤ w
    → pos 1 ≤ℤ h
    → pointer (receive (bytes (first ∷ ks)) (mouse_init w h m))
      ≡ all_moved w h (record (pointer m) { x = half w; y = half h }) ks
unfolding bytes mouse_init end_packet pointer
mouse_packets w h first ks m mk hw hh =
    rw (receive_packet true first (bytes ks) (mouse_init w h m) mk.0 mk.1)
      (receive_packets ks (loaded first (mouse_init w h m)) mk.2 hw hh)
