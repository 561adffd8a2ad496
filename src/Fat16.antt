-- ===== src/Fat16.antt =====
-- kernel/fat16.c: the mounted volume, its boot sector and its file allocation table.
pub mod Dir
pub mod Files
pub mod Store
pub mod Table
mod Tests
use kronked_os.Prelude.{
  ℕ, zero, suc, ◌+◌, ◌-◌, ◌*◌, ◌/◌, ◌%◌, ◌^◌, Bool, true, false, ◌&&◌, not, Option, none, some,
  ◌==◌, ltb, leb, if◌then◌else◌, update,
}
use kronked_os.Ata.{Words, Drive, ata_read_sectors, ata_write_sectors}

-- `struct fat16_bpb`, the fields that are used.
pub record Bpb : Type 0 where
  pub bytes_per_sector : ℕ
  pub sectors_per_cluster : ℕ
  pub reserved_sector_count : ℕ
  pub num_fats : ℕ
  pub root_entry_count : ℕ
  pub total_sectors_16 : ℕ
  pub sectors_per_fat : ℕ

-- The static variables, and the drive.
pub record Volume : Type 0 where
  pub bpb : Bpb
  pub fat_start_lba : ℕ
  pub root_dir_start_lba : ℕ
  pub root_dir_sectors : ℕ
  pub data_start_lba : ℕ
  pub mounted : Bool
  pub drive : Drive

-- Byte `k` of a buffer of words, and the 16-bit number at byte `k`.
abbrev pub byte_at : Words → ℕ → ℕ
byte_at buf k = if k % 2 == 0 then buf (k / 2) % 256 else buf (k / 2) / 256 % 256

abbrev pub short_at : Words → ℕ → ℕ
short_at buf k = byte_at buf k + byte_at buf (k + 1) * 256

abbrev pub read_bpb : Words → Bpb
read_bpb raw = record {
  bytes_per_sector = short_at raw 11;
  sectors_per_cluster = byte_at raw 13;
  reserved_sector_count = short_at raw 14;
  num_fats = byte_at raw 16;
  root_entry_count = short_at raw 17;
  total_sectors_16 = short_at raw 19;
  sectors_per_fat = short_at raw 22;
}

-- The layout that follows from a boot sector with 512-byte sectors.
unfoldable pub lay_out : Volume → Volume
lay_out v =
    let root = v.bpb.reserved_sector_count + v.bpb.num_fats * v.bpb.sectors_per_fat in
    let sectors =
      (v.bpb.root_entry_count * 32 + v.bpb.bytes_per_sector - 1) / v.bpb.bytes_per_sector in
    record v {
      fat_start_lba = v.bpb.reserved_sector_count;
      root_dir_start_lba = root;
      root_dir_sectors = sectors;
      data_start_lba = root + sectors;
      mounted = true;
    }

unfoldable pub mount_from : Option Words → Volume → Bool × Volume
unfolding lay_out
mount_from none v = (false, v)
mount_from (some raw) v =
    let loaded : Volume = record v { bpb = read_bpb raw } in
    if not (loaded.bpb.bytes_per_sector == 512) then (false, loaded) else (true, lay_out loaded)

unfoldable pub fat16_mount : Volume → Bool × Volume
unfolding mount_from
fat16_mount v = mount_from (ata_read_sectors 0 1 v.drive) v

unfoldable pub cluster_to_lba : ℕ → Volume → ℕ
cluster_to_lba cluster v =
    (v.data_start_lba + (cluster + 2 ^ 32 - 2) * v.bpb.sectors_per_cluster) % 2 ^ 32

abbrev pub fat_sector : ℕ → Volume → ℕ
fat_sector cluster v = cluster * 2 / v.bpb.bytes_per_sector

abbrev pub fat_index : ℕ → Volume → ℕ
fat_index cluster v = cluster * 2 % v.bpb.bytes_per_sector / 2

unfoldable pub pick_word : ℕ → Option Words → Option ℕ
pick_word i none = none
pick_word i (some buf) = some (buf i)

unfoldable pub fat_read_entry : ℕ → Volume → Option ℕ
unfolding pick_word
fat_read_entry cluster v =
    pick_word (fat_index cluster v)
      (ata_read_sectors (v.fat_start_lba + fat_sector cluster v) 1 v.drive)

-- One copy: the sector is read, one word changed, and written back.
unfoldable pub write_back : ℕ → ℕ → ℕ → Option Words → Volume → Bool × Volume
write_back lba i value none v = (false, v)
write_back lba i value (some buf) v =
    let (ok, drive) = ata_write_sectors lba 1 (update buf i value) v.drive in
    (ok, record v { drive = drive })

unfoldable pub write_copy : ℕ → ℕ → ℕ → Volume → Bool × Volume
unfolding write_back
write_copy lba i value v = write_back lba i value (ata_read_sectors lba 1 v.drive) v

-- The loop over the copies of the table, from `copy` on.
unfoldable pub write_copies : ℕ → ℕ → ℕ → ℕ → Volume → Bool × Volume
unfolding write_copy
write_copies zero copy cluster value v = (true, v)
write_copies (suc copies) copy cluster value v =
    let written =
      write_copy (v.fat_start_lba + copy * v.bpb.sectors_per_fat + fat_sector cluster v)
        (fat_index cluster v) value v in
    let rest = write_copies copies (copy + 1) cluster value written.1 in
    if written.0 then rest else written

unfoldable pub fat_write_entry : ℕ → ℕ → Volume → Bool × Volume
unfolding write_copies
fat_write_entry cluster value v = write_copies v.bpb.num_fats 0 cluster value v

-- `FAT_ENTRY_FREE`, `FAT_ENTRY_END`
abbrev pub fat_entry_free : ℕ
fat_entry_free = 0

abbrev pub fat_entry_end : ℕ
fat_entry_end = 0xffff

unfoldable pub total_clusters : Volume → ℕ
total_clusters v =
    (v.bpb.total_sectors_16 + 2 ^ 32 - v.data_start_lba) % 2 ^ 32 / v.bpb.sectors_per_cluster + 2

-- A free cluster is claimed at once.
unfoldable pub claim : ℕ → Volume → Option ℕ × Volume
claim c v = let (ok, v') = fat_write_entry c fat_entry_end v in (if ok then some c else none, v')

-- At the entry of cluster `c`: the search goes on at a used one.
unfoldable pub at_entry : ℕ → Option ℕ → Option ℕ × Volume → Volume → Option ℕ × Volume
unfolding claim
at_entry c none rest v = (none, v)
at_entry c (some value) rest v = if value == fat_entry_free then claim c v else rest

-- The scan from `c` with `rounds` clusters left. With more than 2^16 clusters, which 16-bit `c` never
-- reaches, the source goes round for ever where this ends.
unfoldable pub alloc_loop : ℕ → ℕ → Volume → Option ℕ × Volume
unfolding at_entry
alloc_loop zero c v = (none, v)
alloc_loop (suc rounds) c v =
    let rest = alloc_loop rounds ((c + 1) % 2 ^ 16) v in at_entry c (fat_read_entry c v) rest v

unfoldable pub fat_alloc_cluster : Volume → Option ℕ × Volume
unfolding alloc_loop total_clusters
fat_alloc_cluster v = alloc_loop (total_clusters v - 2) 2 v

-- A cluster number that continues a chain.
abbrev pub is_link : ℕ → Bool
is_link cluster = leb 2 cluster && ltb cluster 0xfff8

abbrev pub has_entry : Option ℕ → Bool
has_entry none = false
has_entry (some next) = true

abbrev pub next_cluster : Option ℕ → ℕ
next_cluster none = 0
next_cluster (some next) = next

-- The walk along a chain. A freed entry ends a chain that comes back to it, so that 2^16 rounds,
-- one for each cluster number, are enough.
unfoldable pub free_chain : ℕ → ℕ → Volume → Volume
free_chain zero cluster v = v
free_chain (suc rounds) cluster v =
    let entry = fat_read_entry cluster v in
    let rest =
      free_chain rounds (next_cluster entry) (fat_write_entry cluster fat_entry_free v).1 in
    if is_link cluster && has_entry entry then rest else v

unfoldable pub fat_free_chain : ℕ → Volume → Volume
unfolding free_chain
fat_free_chain cluster v = free_chain (2 ^ 16) cluster v
