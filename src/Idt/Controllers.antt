-- ===== src/Idt/Controllers.antt =====
-- kernel/idt.c: what the writes of `pic_remap` make of the two 8259 interrupt controllers, by the
-- controllers' documented behaviour.
use kronked_os.Prelude.{
  ℕ, ◌+◌, ◌-◌, ◌*◌, ◌/◌, ◌<◌, ◌≡◌, refl, List, [], ◌∷◌, ◌==◌, ltb, if◌then◌else◌, arith,
}
use kronked_os.Prelude.Bits.{has_bit}
use kronked_os.Idt.{pic_remap}

-- `pending` is the number of initialisation bytes that are still to come to the data port.
pub record Controller : Type 0 where
  pub pending : ℕ
  pub first_vector : ℕ
  pub cascade : ℕ
  pub mask : ℕ

-- A command with bit 4 starts the initialisation, which clears the mask.
unfoldable pub take_command : ℕ → Controller → Controller
take_command b c = if has_bit b 4 then record c { pending = 3; mask = 0 } else c

-- The vector of the first line, by its upper five bits; how the two are joined; the mode; then masks.
unfoldable pub take_byte : ℕ → Controller → Controller
take_byte b c =
    if c.pending == 3
    then record c { pending = 2; first_vector = b / 8 * 8 }
    else if c.pending == 2
    then record c { pending = 1; cascade = b }
    else if c.pending == 1
    then record c { pending = 0 }
    else record c { mask = b }

pub record Controllers : Type 0 where
  pub master : Controller
  pub slave : Controller

unfoldable pub port_write : ℕ → ℕ → Controllers → Controllers
unfolding take_command take_byte
port_write port b p =
    if port == 0x20
    then record p { master = take_command b p.master }
    else if port == 0x21
    then record p { master = take_byte b p.master }
    else if port == 0xa0
    then record p { slave = take_command b p.slave }
    else if port == 0xa1
    then record p { slave = take_byte b p.slave }
    else p

unfoldable pub all_writes : List (ℕ × ℕ) → Controllers → Controllers
unfolding port_write
all_writes [] p = p
all_writes ((port, b) ∷ ws) p = all_writes ws (port_write port b p)

-- The vector at which the processor is interrupted for a line.
unfoldable pub vector_of : Controllers → ℕ → ℕ
vector_of p line =
    if ltb line 8 then p.master.first_vector + line else p.slave.first_vector + (line - 8)

-- The controllers are joined by line 2, let every line through, and have the vectors from 32 on.
pub record Remapped (p : Controllers) : Type 0 where
  pub vectors : (line : ℕ) → line < 16 → vector_of p line ≡ 32 + line
  pub joined : (p.master.cascade ≡ 4) × (p.slave.cascade ≡ 2)
  pub open_lines : (p.master.mask ≡ 0) × (p.slave.mask ≡ 0)
  pub complete : (p.master.pending ≡ 0) × (p.slave.pending ≡ 0)

pub pic_remap-Remapped : (p : Controllers) → Remapped (all_writes pic_remap p)
unfolding all_writes port_write take_command take_byte has_bit vector_of
pic_remap-Remapped p = record {
  vectors = λ line h. ground arith;
  joined = (refl, refl);
  open_lines = (refl, refl);
  complete = (refl, refl);
}
