-- ===== src/Idt/Tests.antt =====
-- The theorem on kernel/idt.c at the controllers of a PC's firmware.
use kronked_os.Prelude.{ℕ, ◌+◌}
use kronked_os.Idt.{Stub, isr, irq, Idt, idt_init}
use kronked_os.Idt.Controllers.{Controllers, all_writes}
use kronked_os.Idt.Gates.{Initialised, idt_init_lem}

abbrev addresses : Stub → ℕ
addresses (isr n) = 0x101000 + n
addresses (irq n) = 0x102000 + n

abbrev old_table : Idt
old_table n = record { base_low = 1; sel = 2; always0 = 3; flags = 4; base_high = 5 }

-- As the firmware has left them.
abbrev firmware : Controllers
firmware = record {
  master = record { pending = 0; first_vector = 8; cascade = 4; mask = 0xb8 };
  slave = record { pending = 0; first_vector = 0x70; cascade = 2; mask = 0x8f };
}

idt_init_lem_example :
    Initialised addresses
      (all_writes (idt_init addresses old_table).0 firmware)
      (idt_init addresses old_table).1
idt_init_lem_example = idt_init_lem addresses old_table firmware
