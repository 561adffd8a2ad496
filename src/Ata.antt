-- ===== src/Ata.antt =====
-- kernel/ata.c: sectors of the FAT16 partition by PIO. The drive is a parameter: what its sectors hold
-- and which of them it answers with an error. A buffer holds 256 16-bit words for each sector.
use kronked_os.Prelude.{
  ℕ, zero, suc, ◌+◌, ◌/◌, ◌%◌, ◌^◌, Bool, true, false, ◌&&◌, not, Option, none, some, if◌then◌else◌,
  update,
}

abbrev pub Words : Type 0
Words = ℕ → ℕ

pub record Drive : Type 0 where
  pub sectors : ℕ → Words
  pub bad : ℕ → Bool

-- `FAT16_PARTITION_LBA_OFFSET`
abbrev pub partition_offset : ℕ
partition_offset = 2048

-- The sector that the drive is asked for: the sum is 32 bits wide, and 28 of them reach the drive.
abbrev pub drive_sector : ℕ → ℕ
drive_sector lba = (lba + partition_offset) % 2 ^ 28

-- The loop waits for every sector; one error ends it.
unfoldable pub all_ready : ℕ → ℕ → Drive → Bool
all_ready zero n d = true
all_ready (suc count) n d = not (d.bad n) && all_ready count (n + 1) d

unfoldable pub ata_read_sectors : ℕ → ℕ → Drive → Option Words
unfolding all_ready
ata_read_sectors lba count d =
    if all_ready count (drive_sector lba) d
    then some (λ i. d.sectors (drive_sector lba + i / 256) (i % 256))
    else none

-- The loop of `ata_write_sectors`: sectors before the error are written.
unfoldable pub write_loop : ℕ → ℕ → Words → Drive → Bool × Drive
write_loop zero n buffer d = (true, d)
write_loop (suc count) n buffer d =
    let rest =
      write_loop count (n + 1) (λ i. buffer (i + 256))
        (record d { sectors = update d.sectors n buffer }) in
    if d.bad n then (false, d) else rest

unfoldable pub ata_write_sectors : ℕ → ℕ → Words → Drive → Bool × Drive
unfolding write_loop
ata_write_sectors lba count buffer d = write_loop count (drive_sector lba) buffer d
