-- ===== src/Idt/Handlers.antt =====
-- kernel/idt.c: the handlers of exceptions and of hardware interrupts.
use Prim.Native.Nat.{bit_and}
use kronked_os.Prelude.{
  ℕ, zero, suc, ◌+◌, ◌-◌, ◌/◌, ◌%◌, Bool, Option, none, some, List, [], ◌∷◌, ◌++◌, ◌==◌, ltb,
  if◌then◌else◌, update, get_or,
}
use kronked_os.Prelude.Bits.{has_bit}
use kronked_os.Prelude.Text.{text}
use kronked_os.Serial.{serial_write}
use kronked_os.Paging.{Paging}
use kronked_os.Paging.Cow.{paging_handle_cow_fault}
use kronked_os.Keyboard.{keyboard_callback}
use kronked_os.Mouse.{mouse_callback}
use kronked_os.Machine.{Machine, with_paging, print}
use kronked_os.Timer.{timer_callback}
use kronked_os.Idt.{pic_send_eoi}

unfoldable pub exception_messages : List (List ℕ)
exception_messages =
    text "Division By Zero"
    ∷ text "Debug"
    ∷ text "Non Maskable Interrupt"
    ∷ text "Breakpoint"
    ∷ text "Into Detected Overflow"
    ∷ text "Out of Bounds"
    ∷ text "Invalid Opcode"
    ∷ text "No Coprocessor"
    ∷ text "Double Fault"
    ∷ text "Coprocessor Segment Overrun"
    ∷ text "Bad TSS"
    ∷ text "Segment Not Present"
    ∷ text "Stack Fault"
    ∷ text "General Protection Fault"
    ∷ text "Page Fault"
    ∷ text "Unknown Interrupt"
    ∷ text "Coprocessor Fault"
    ∷ text "Alignment Check"
    ∷ text "Machine Check"
    ∷ text "SIMD Floating-Point Exception"
    ∷ []

-- The messages from 20 to 31 are the same.
unfoldable pub message : ℕ → List ℕ
unfolding exception_messages
message n = get_or exception_messages n (text "Reserved")

unfoldable pub hex_digit : ℕ → ℕ
hex_digit nib = if ltb nib 10 then 48 + nib else 87 + nib

unfoldable pub hex_from : ℕ → ℕ → List ℕ → List ℕ
unfolding hex_digit
hex_from zero n buf = buf
hex_from (suc i) n buf = hex_from i (n / 16) (hex_digit (n % 16) ∷ buf)

-- What `print_hex_idt` writes.
unfoldable pub hex_text : ℕ → List ℕ
unfolding hex_from
hex_text n = hex_from 8 n []

unfoldable pub serial_log : List ℕ → Machine → Machine
serial_log s m = record m { vga = record (m.vga) { serial = serial_write s m.vga.serial } }

unfoldable pub report : ℕ → Machine → Machine
unfolding serial_log
report int_no m =
    serial_log (text "[serial] CPU EXCEPTION: " ++ message int_no ++ text "\n")
      (print (text " ***\n") (print (message int_no) (print (text "\n*** CPU EXCEPTION: ") m)))

unfoldable pub flag : ℕ → ℕ → List ℕ
flag err_code k = if has_bit err_code k then text "1" else text "0"

unfoldable pub report_fault : ℕ → ℕ → Machine → Machine
unfolding flag
report_fault err_code fault_addr m =
    serial_log
      (text "[serial]   faulting address (CR2) = 0x"
        ++ hex_text fault_addr
        ++ text "\n[serial]   present="
        ++ flag err_code 0
        ++ text " write="
        ++ flag err_code 1
        ++ text " user="
        ++ flag err_code 2
        ++ text "\n")
      m

-- What an exception comes to: the instruction is run again, or the machine stops for good.
pub data Handled : Type 0 where
  retried : Machine → Handled
  stopped : Machine → Handled

unfoldable pub page_fault : ℕ → ℕ → Machine → Bool × Paging → Handled
unfolding report report_fault
page_fault err_code fault_addr m (ok, s) =
    if ok
    then retried (with_paging s m)
    else stopped (report_fault err_code fault_addr (report 14 (with_paging s m)))

unfoldable pub isr_14 : ℕ → ℕ → Machine → Handled
unfolding page_fault
isr_14 err_code fault_addr m =
    if bit_and err_code 0x3 == 0x3
    then page_fault err_code fault_addr m (paging_handle_cow_fault fault_addr m.heap.paging)
    else stopped (report_fault err_code fault_addr (report 14 m))

-- `fault_addr` is CR2.
unfoldable pub isr_handler : ℕ → ℕ → ℕ → Machine → Handled
unfolding isr_14
isr_handler int_no err_code fault_addr m =
    if int_no == 14 then isr_14 err_code fault_addr m else stopped (report int_no m)

-- The routines that the drivers install; the two of the 8042 read the byte at port 0x60.
pub data Routine : Type 0 where
  timer_routine keyboard_routine mouse_routine : Routine

abbrev pub Routines : Type 0
Routines = ℕ → Option Routine

unfoldable pub irq_install_handler : ℕ → Routine → Routines → Routines
irq_install_handler irq handler routines = update routines irq (some handler)

unfoldable pub run_routine : Option Routine → ℕ → Machine → Machine
run_routine none byte m = m
run_routine (some timer_routine) byte m = timer_callback m
run_routine (some keyboard_routine) byte m = record m {
  keyboard = keyboard_callback byte m.keyboard;
}
run_routine (some mouse_routine) byte m = record m { mouse = mouse_callback byte m.mouse }

-- The writes to the interrupt controllers come first.
unfoldable pub irq_handler : Routines → ℕ → ℕ → Machine → List (ℕ × ℕ) × Machine
unfolding run_routine
irq_handler routines int_no byte m =
    let line = int_no - 32 in (pic_send_eoi line, run_routine (routines line) byte m)
