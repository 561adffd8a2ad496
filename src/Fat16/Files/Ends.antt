-- ===== src/Fat16/Files/Ends.antt =====
-- Termination of the loop of `fat16_read_file` of kernel/fat16.c.
use kronked_os.Prelude.{
  ℕ, ◌+◌, ◌<◌, ◌≡◌, refl, Bool, true, false, not, Option, none, some, if◌then◌else◌,
}
use kronked_os.Fat16.Dir.{File}
use kronked_os.Fat16.Files.{Bytes, Reading, ReadResult, failed, done, running}

abbrev pub is_running : ReadResult → Bool
is_running failed = false
is_running (done b) = false
is_running running = true

-- A round that does not fail has read `n` bytes in all.
abbrev HasRead : ℕ → Option Reading → Type 0
HasRead n none = Unit {0}
HasRead n (some r) = r.bytes_read ≡ n

-- Rounds enough for what is left.
abbrev Enough : ℕ → File → Option Reading → Type 0
Enough rounds file none = 0 < rounds
Enough rounds file (some r) = (0 < rounds) × (file.file_size < r.bytes_read + rounds)

gate :
    (b : Bool) (r : ReadResult)
    → is_running r ≡ false
    → is_running (if not b then failed else r) ≡ false
gate true r h = h
gate false r h = refl

abbrev first_round : File → Bytes → Reading
first_round file buffer = record {
  cluster = file.first_cluster;
  bytes_read = 0;
  buffer = buffer;
  cached_fat_sector = 0xffffffff;
  fat_sector_cache = λ _. 0;
}
