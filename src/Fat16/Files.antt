-- ===== src/Fat16/Files.antt =====
-- kernel/fat16.c: reading a file of the root directory.
pub mod Ends
use kronked_os.Prelude.{
  ℕ, zero, suc, ◌+◌, ◌-◌, ◌*◌, ◌%◌, ◌^◌, Bool, ◌&&◌, not, Option, none, some, ◌==◌, ltb, leb,
  if◌then◌else◌,
}
use kronked_os.Ata.{Words, ata_read_sectors}
use kronked_os.Fat16.{Volume, byte_at, cluster_to_lba, fat_sector, fat_index, is_link}
use kronked_os.Fat16.Dir.{File}

-- A buffer of bytes.
abbrev pub Bytes : Type 0
Bytes = ℕ → ℕ

-- `buffer[at + b] = src[b]` for `b` below `n`.
abbrev pub copy_bytes : ℕ → ℕ → Bytes → Bytes → Bytes
copy_bytes at n src buffer j = if leb at j && ltb j (at + n) then src (j - at) else buffer j

abbrev pub cluster_bytes : Volume → ℕ
cluster_bytes v = v.bpb.sectors_per_cluster * v.bpb.bytes_per_sector

-- How much of a cluster is copied.
unfoldable pub to_read : ℕ → ℕ → ℕ → Volume → ℕ
to_read bytes_read buffer_size file_size v =
    let all = cluster_bytes v in
    let fitting =
      if ltb buffer_size ((bytes_read + all) % 2 ^ 32) then buffer_size - bytes_read else all in
    if ltb file_size ((bytes_read + fitting) % 2 ^ 32) then file_size - bytes_read else fitting

-- The variables of the loop of `fat16_read_file`.
pub record Reading : Type 0 where
  pub cluster : ℕ
  pub bytes_read : ℕ
  pub buffer : Bytes
  pub cached_fat_sector : ℕ
  pub fat_sector_cache : Words

-- The copy of a cluster that was read.
unfoldable pub copy_cluster : ℕ → File → Words → Volume → Reading → Reading
unfolding to_read
copy_cluster buffer_size file cluster_buf v r =
    let n = to_read r.bytes_read buffer_size file.file_size v in
    record r {
      bytes_read = r.bytes_read + n;
      buffer = copy_bytes r.bytes_read n (byte_at cluster_buf) r.buffer;
    }

-- The table's sector for the cluster is kept from one round to the next.
unfoldable pub cache_sector : ℕ → Option Words → Reading → Option Reading
cache_sector sector none r = none
cache_sector sector (some buf) r =
    some (record r { cached_fat_sector = sector; fat_sector_cache = buf })

unfoldable pub load_sector : ℕ → Volume → Reading → Option Reading
unfolding cache_sector
load_sector sector v r =
    if not (sector == r.cached_fat_sector)
    then cache_sector sector (ata_read_sectors sector 1 v.drive) r
    else some r

unfoldable pub follow : ℕ → Option Reading → Option Reading
follow index none = none
follow index (some r) = some (record r { cluster = r.fat_sector_cache index })

-- One round: the cluster is read and copied, and the table gives the next one. `none` is a failed
-- read.
unfoldable pub read_cluster : ℕ → File → Option Words → Volume → Reading → Option Reading
unfolding copy_cluster load_sector follow
read_cluster buffer_size file none v r = none
read_cluster buffer_size file (some buf) v r = follow (fat_index r.cluster v) (
    load_sector (v.fat_start_lba + fat_sector r.cluster v) v
      (copy_cluster buffer_size file buf v r))

unfoldable pub read_round : ℕ → File → Volume → Reading → Option Reading
unfolding read_cluster
read_round buffer_size file v r =
    read_cluster buffer_size file
      (ata_read_sectors (cluster_to_lba r.cluster v) (v.bpb.sectors_per_cluster % 2 ^ 8) v.drive) v
      r

-- What the loop ends with; `running` is a loop that goes on.
pub data ReadResult : Type 0 where
  failed : ReadResult
  done : Bytes → ReadResult
  running : ReadResult

unfoldable pub still_reading : File → Reading → Bool
still_reading file r = is_link r.cluster && ltb r.bytes_read file.file_size

-- The loop, with at most `rounds` rounds, from what the round before it left.
unfoldable pub read_from : ℕ → ℕ → File → Volume → Option Reading → ReadResult
unfolding read_round still_reading
read_from zero buffer_size file v next = running
read_from (suc rounds) buffer_size file v none = failed
read_from (suc rounds) buffer_size file v (some r) =
    let rest = read_from rounds buffer_size file v (read_round buffer_size file v r) in
    if still_reading file r then rest else done r.buffer

unfoldable pub fat16_read_file : ℕ → File → Bytes → ℕ → Volume → ReadResult
unfolding read_from
fat16_read_file rounds file buffer buffer_size v =
    if not v.mounted
    then failed
    else read_from rounds buffer_size file v (
        some (record {
          cluster = file.first_cluster;
          bytes_read = 0;
          buffer = buffer;
          cached_fat_sector = 0xffffffff;
          fat_sector_cache = λ _. 0;
        }))
