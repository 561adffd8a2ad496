-- ===== src/Idt.antt =====
-- kernel/idt.c: the interrupt descriptor table. The addresses of the assembly stubs are a parameter.
pub mod Controllers
pub mod Gates
pub mod Handlers
mod Tests
use kronked_os.Prelude.{
  ℕ, zero, suc, ◌+◌, ◌-◌, ◌*◌, ◌/◌, ◌%◌, ◌^◌, Bool, true, false, Option, none, some, List, [], ◌∷◌,
  ◌++◌, ◌==◌, ltb, leb, if◌then◌else◌, update, get_or,
}

-- `struct idt_entry`
pub record IdtEntry : Type 0 where
  pub base_low : ℕ
  pub sel : ℕ
  pub always0 : ℕ
  pub flags : ℕ
  pub base_high : ℕ

-- The labels of isr_stubs.s.
pub data Stub : Type 0 where
  isr : ℕ → Stub
  irq : ℕ → Stub

abbrev pub idt_entries : ℕ
idt_entries = 256

abbrev pub Idt : Type 0
Idt = ℕ → IdtEntry

-- `num` is an unsigned char.
unfoldable pub idt_set_gate : ℕ → ℕ → ℕ → ℕ → Idt → Idt
idt_set_gate num base sel flags idt = update idt (num % 256) (record {
  base_low = base % 65536;
  base_high = base / 65536 % 65536;
  sel = sel;
  always0 = 0;
  flags = flags;
})

unfoldable pub reset_idt : ℕ → ℕ → Idt → Idt
unfolding idt_set_gate
reset_idt zero i idt = idt
reset_idt (suc n) i idt = reset_idt n (i + 1) (idt_set_gate i 0 0 0 idt)

-- The writes of `pic_remap`, with their ports.
abbrev pub pic_remap : List (ℕ × ℕ)
pic_remap =
    (0x20, 0x11)
    ∷ (0xa0, 0x11)
    ∷ (0x21, 0x20)
    ∷ (0xa1, 0x28)
    ∷ (0x21, 0x04)
    ∷ (0xa1, 0x02)
    ∷ (0x21, 0x01)
    ∷ (0xa1, 0x01)
    ∷ (0x21, 0x00)
    ∷ (0xa1, 0x00)
    ∷ []

-- The writes of `pic_send_eoi`.
unfoldable pub pic_send_eoi : ℕ → List (ℕ × ℕ)
pic_send_eoi line = (if leb 8 line then (0xa0, 0x20) ∷ [] else []) ++ (0x20, 0x20) ∷ []

-- The gates of the exceptions, from `isr(i)` on.
unfoldable pub exception_gates : ℕ → ℕ → (Stub → ℕ) → Idt → Idt
unfolding idt_set_gate
exception_gates zero i addr idt = idt
exception_gates (suc n) i addr idt =
    exception_gates n (i + 1) addr (idt_set_gate i (addr (isr i)) 0x08 0x8e idt)

-- The gates of the hardware interrupts, from `irq(i)` on.
unfoldable pub irq_gates : ℕ → ℕ → (Stub → ℕ) → Idt → Idt
unfolding idt_set_gate
irq_gates zero i addr idt = idt
irq_gates (suc n) i addr idt =
    irq_gates n (i + 1) addr (idt_set_gate (32 + i) (addr (irq i)) 0x08 0x8e idt)

-- The three loops, at their whole ranges.
unfoldable pub clear_all : Idt → Idt
unfolding reset_idt
clear_all idt = reset_idt idt_entries 0 idt

unfoldable pub set_exceptions : (Stub → ℕ) → Idt → Idt
unfolding exception_gates
set_exceptions addr idt = exception_gates 32 0 addr idt

unfoldable pub set_irqs : (Stub → ℕ) → Idt → Idt
unfolding irq_gates
set_irqs addr idt = irq_gates 16 0 addr idt

-- `idt_init`, with the writes to the interrupt controllers.
unfoldable pub idt_init : (Stub → ℕ) → Idt → List (ℕ × ℕ) × Idt
unfolding clear_all set_exceptions set_irqs idt_set_gate
idt_init addr idt = (
  pic_remap,
  idt_set_gate 128 (addr (isr 128)) 0x08 0xee (set_irqs addr (set_exceptions addr (clear_all idt))),
)
