-- ===== src/Idt/Gates.antt =====
-- kernel/idt.c: which gates there are, where they lead, and at which of them the lines interrupt.
use kronked_os.Prelude.{
  ℕ, zero, suc, ◌+◌, ◌-◌, ◌/◌, ◌%◌, ◌≤◌, ◌<◌, ◌≡◌, inl, inr, refl, sym, ap, ◌∙◌, ◌==◌, ltb,
  if◌then◌else◌, arith,
}
use kronked_os.Prelude.Loops.{within, tri}
use mathlib.Core.Path.{subst}
use kronked_os.Idt.Controllers.{Controllers, all_writes, vector_of, Remapped, pic_remap-Remapped}
use kronked_os.Idt.{
  pic_remap, IdtEntry, Stub, isr, irq, Idt, idt_set_gate, reset_idt, exception_gates, irq_gates,
  clear_all, set_exceptions, set_irqs, idt_init,
}

-- A gate of the kernel's code segment, or none for the flags 0.
unfoldable pub gate : ℕ → ℕ → IdtEntry
gate base flags = record {
  base_low = base % 65536;
  base_high = base / 65536 % 65536;
  sel = if flags == 0 then 0 else 0x08;
  always0 = 0;
  flags = flags;
}

-- The table that is meant: exceptions below 32, the 16 interrupt lines behind them, and the gate
-- for system calls, the one that user mode may call.
unfoldable pub intended : (Stub → ℕ) → ℕ → IdtEntry
unfolding gate
intended addr n =
    if ltb n 32
    then gate (addr (isr n)) 0x8e
    else if ltb n 48
    then gate (addr (irq (n - 32))) 0x8e
    else if n == 128
    then gate (addr (isr 128)) 0xee
    else gate 0 0

reset_idt_lem :
    (n i : ℕ) (idt : Idt) (j : ℕ)
    → i + n ≤ 256
    → reset_idt n i idt j ≡ (if within i n j then gate 0 0 else idt j)
unfolding reset_idt idt_set_gate gate
reset_idt_lem zero i idt j h = ground arith
reset_idt_lem (suc n) i idt j h =
    ground (arith, reset_idt_lem n (i + 1) (idt_set_gate i 0 0 0 idt) j)

exception_gates_lem :
    (n i : ℕ) (addr : Stub → ℕ) (idt : Idt) (j : ℕ)
    → i + n ≤ 256
    → exception_gates n i addr idt j ≡ (if within i n j then gate (addr (isr j)) 0x8e else idt j)
unfolding exception_gates idt_set_gate gate
exception_gates_lem zero i addr idt j h = ground arith
exception_gates_lem (suc n) i addr idt j h =
    let ih =
      exception_gates_lem n (i + 1) addr (idt_set_gate i (addr (isr i)) 0x08 0x8e idt) j
        (omega arith) in
    elim (tri i j) [
      | inl lt ↦ ground (arith, lt, ih)
      | inr (inl same) ↦
          let e = ap (λ k. gate (addr (isr k)) 0x8e) same in ground (arith, same, e, ih)
      | inr (inr gt) ↦ ground (arith, gt, ih)
    ]

irq_gates_lem :
    (n i : ℕ) (addr : Stub → ℕ) (idt : Idt) (j : ℕ)
    → i + n ≤ 16
    → irq_gates n i addr idt j
      ≡ (if within (32 + i) n j then gate (addr (irq (j - 32))) 0x8e else idt j)
unfolding irq_gates idt_set_gate gate
irq_gates_lem zero i addr idt j h = ground arith
irq_gates_lem (suc n) i addr idt j h =
    let ih =
      irq_gates_lem n (i + 1) addr (idt_set_gate (32 + i) (addr (irq i)) 0x08 0x8e idt) j
        (omega arith) in
    elim (tri (32 + i) j) [
      | inl lt ↦ ground (arith, lt, ih)
      | inr (inl same) ↦
          let line : i ≡ j - 32 = omega (arith, same) in
          let e = ap (λ k. gate (addr (irq k)) 0x8e) line in ground (arith, same, e, ih)
      | inr (inr gt) ↦ ground (arith, gt, ih)
    ]

clear_all_lem : (idt : Idt) (j : ℕ) → clear_all idt j ≡ (if within 0 256 j then gate 0 0 else idt j)
unfolding clear_all
clear_all_lem idt j = reset_idt_lem 256 0 idt j (omega arith)

set_exceptions_lem :
    (addr : Stub → ℕ) (idt : Idt) (j : ℕ)
    → set_exceptions addr idt j ≡ (if within 0 32 j then gate (addr (isr j)) 0x8e else idt j)
unfolding set_exceptions
set_exceptions_lem addr idt j = exception_gates_lem 32 0 addr idt j (omega arith)

set_irqs_lem :
    (addr : Stub → ℕ) (idt : Idt) (j : ℕ)
    → set_irqs addr idt j ≡ (if within 32 16 j then gate (addr (irq (j - 32))) 0x8e else idt j)
unfolding set_irqs
set_irqs_lem addr idt j = irq_gates_lem 16 0 addr idt j (omega arith)

set_call_lem :
    (base : ℕ) (idt : Idt) (j : ℕ)
    → idt_set_gate 128 base 0x08 0xee idt j ≡ (if 128 == j then gate base 0xee else idt j)
unfolding idt_set_gate gate
set_call_lem base idt j = refl

-- The order in which the gates are set does not matter.
in_order :
    (n : ℕ) (a b c d e : IdtEntry)
    → n < 256
    → (if 128 == n
        then c
        else if within 32 16 n
        then b
        else if within 0 32 n
        then a
        else if within 0 256 n
        then d
        else e)
      ≡ (if ltb n 32 then a else if ltb n 48 then b else if n == 128 then c else d)
in_order n a b c d e h = ground arith

table_lem :
    (addr : Stub → ℕ) (idt : Idt) (n : ℕ) → n < 256 → (idt_init addr idt).1 n ≡ intended addr n
unfolding idt_init intended
table_lem addr idt n h =
    set_call_lem (addr (isr 128)) (set_irqs addr (set_exceptions addr (clear_all idt))) n
    ∙ rw
        (
          set_irqs_lem addr (set_exceptions addr (clear_all idt)) n,
          set_exceptions_lem addr (clear_all idt) n,
          clear_all_lem idt n,
        )
        (in_order n _ _ _ _ (idt n) h)

intended_line :
    (addr : Stub → ℕ) (line : ℕ)
    → line < 16
    → intended addr (32 + line) ≡ gate (addr (irq line)) 0x8e
unfolding intended
intended_line addr line h =
    let k : (32 + line) - 32 ≡ line = omega arith in
    let e = ap (λ n. gate (addr (irq n)) 0x8e) k in ground (arith, e)

writes_lem : (addr : Stub → ℕ) (idt : Idt) → (idt_init addr idt).0 ≡ pic_remap
unfolding idt_init
writes_lem addr idt = refl

-- What idt_init has made of the table and, through its writes, of the two controllers.
pub record Initialised (addr : Stub → ℕ) (p : Controllers) (idt : Idt) : Type 0 where
  pub table : (n : ℕ) → n < 256 → idt n ≡ intended addr n
  pub controllers : Remapped p
  pub lines :
      (line : ℕ)
      → line < 16
      → (32 ≤ vector_of p line) × (idt (vector_of p line) ≡ gate (addr (irq line)) 0x8e)

-- idt_init makes the table that is meant, for any addresses of the stubs, whatever the table held and
-- in whatever state the two controllers were: gates for the 32 exceptions, for the 16 interrupt lines
-- and for system calls at 128, each to its own stub in the kernel's code segment; all other
-- vectors are absent, and user mode may call vector 128 alone. Its writes leave the controllers set up,
-- with no line masked, and every line interrupts at the vector, from 32 on and so no exception's, whose
-- gate leads to that line's stub.
pub idt_init_lem :
    (addr : Stub → ℕ) (idt : Idt) (p : Controllers)
    → Initialised addr (all_writes (idt_init addr idt).0 p) (idt_init addr idt).1
idt_init_lem addr idt p =
    let q = all_writes (idt_init addr idt).0 p in
    let c : Remapped q =
      subst (λ w. Remapped (all_writes w p)) (sym (writes_lem addr idt)) (pic_remap-Remapped p) in
    record {
      table = table_lem addr idt;
      controllers = c;
      lines = λ line h. (
        omega (arith, c.vectors line h),
        ap (idt_init addr idt).1 (c.vectors line h)
            ∙ table_lem addr idt (32 + line) (omega arith)
            ∙ intended_line addr line h,
      );
    }
