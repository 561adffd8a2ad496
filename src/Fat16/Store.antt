-- ===== src/Fat16/Store.antt =====
-- kernel/fat16.c: writing and deleting a file of the root directory.
use kronked_os.Prelude.{
  ℕ, zero, suc, ◌+◌, ◌-◌, ◌*◌, ◌/◌, ◌%◌, ◌^◌, Bool, true, false, ◌&&◌, not, Option, none, some,
  List, [], ◌∷◌, ◌++◌, ◌==◌, ltb, leb, if◌then◌else◌, update, get_or,
}
use kronked_os.Ata.{Words, ata_read_sectors, ata_write_sectors}
use kronked_os.Fat16.{
  Volume, cluster_to_lba, fat_write_entry, fat_alloc_cluster, fat_free_chain, fat_entry_end,
}
use kronked_os.Fat16.Dir.{
  Dirent, dirent_at, Seen, last, deleted, skipped, other, matching, see, to_fat_name,
}
use kronked_os.Fat16.Files.{Bytes, cluster_bytes}

-- Where `find_dirent_slot` points: the sector, the index in it, and the entry that stands there if the
-- file exists.
pub record Slot : Type 0 where
  pub sector : ℕ
  pub index : ℕ
  pub existing : Option Dirent

-- The first slot that may be taken is kept.
unfoldable pub keep_free : Seen → ℕ → ℕ → Option Slot → Option Slot
keep_free last lba e none = some (record { sector = lba; index = e; existing = none })
keep_free deleted lba e none = some (record { sector = lba; index = e; existing = none })
keep_free last lba e (some slot) = some slot
keep_free deleted lba e (some slot) = some slot
keep_free skipped lba e free = free
keep_free other lba e free = free
keep_free matching lba e free = free

-- The scan of a sector ends with the answer, or goes on to the next with the free slot so far.
pub data SlotScan : Type 0 where
  answer : Option Slot → SlotScan
  onward : Option Slot → SlotScan

unfoldable pub slot_step : Seen → ℕ → ℕ → Dirent → Option Slot → SlotScan → SlotScan
slot_step last lba e d free rest = answer free
slot_step matching lba e d free rest =
    answer (some (record { sector = lba; index = e; existing = some d }))
slot_step deleted lba e d free rest = rest
slot_step skipped lba e d free rest = rest
slot_step other lba e d free rest = rest

unfoldable pub slot_sector : List ℕ × List ℕ → ℕ → ℕ → ℕ → Words → Option Slot → SlotScan
unfolding keep_free slot_step
slot_sector want zero e lba buf free = onward free
slot_sector want (suc rounds) e lba buf free =
    let seen = see want (dirent_at buf e) in
    let free' = keep_free seen lba e free in
    let rest = slot_sector want rounds (e + 1) lba buf free' in
    slot_step seen lba e (dirent_at buf e) free' rest

unfoldable pub slot_read : List ℕ × List ℕ → ℕ → Option Words → Option Slot → SlotScan
unfolding slot_sector
slot_read want lba none free = answer none
slot_read want lba (some buf) free = slot_sector want 16 0 lba buf free

-- The loop over the sectors, from what the sector before it left. A full directory, or one that
-- cannot be read, is `none`.
unfoldable pub slot_loop : List ℕ × List ℕ → ℕ → ℕ → Volume → SlotScan → Option Slot
unfolding slot_read
slot_loop want rounds s v (answer slot) = slot
slot_loop want zero s v (onward free) = free
slot_loop want (suc rounds) s v (onward free) =
    let lba = v.root_dir_start_lba + s in
    slot_loop want rounds (s + 1) v (slot_read want lba (ata_read_sectors lba 1 v.drive) free)

unfoldable pub find_dirent_slot : List ℕ → Volume → Option Slot
unfolding slot_loop to_fat_name
find_dirent_slot filename v = slot_loop (to_fat_name filename) v.root_dir_sectors 0 v (onward none)

-- The chain of a file that exists is freed first.
unfoldable pub free_existing : Option Dirent → Volume → Volume
free_existing none v = v
free_existing (some d) v =
    if not (d.first_cluster == 0) then fat_free_chain d.first_cluster v else v

-- The variables of the loop that writes the clusters.
pub record Storing : Type 0 where
  pub volume : Volume
  pub first_cluster : ℕ
  pub prev_cluster : ℕ
  pub bytes_written : ℕ

unfoldable pub to_copy : ℕ → Storing → ℕ
to_copy size s =
    let all = cluster_bytes s.volume in
    if ltb size ((s.bytes_written + all) % 2 ^ 32) then size - s.bytes_written else all

-- The zeroed cluster buffer with `n` bytes of the data, as words.
abbrev pub chunk : ℕ → ℕ → Bytes → Bytes
chunk at n content b = if ltb b n then content (at + b) else 0

abbrev pub to_words : Bytes → Words
to_words bytes i = bytes (i * 2) + bytes (i * 2 + 1) * 256

-- The disk is full: what was allocated is freed.
unfoldable pub give_up : Storing → Storing
give_up s =
    if not (s.first_cluster == 0)
    then record s { volume = fat_free_chain s.first_cluster s.volume }
    else s

unfoldable pub link : ℕ → ℕ → Storing → Storing
link i cluster s =
    if i == 0 then record s { first_cluster = cluster; prev_cluster = cluster } else record s {
      volume = (fat_write_entry s.prev_cluster cluster s.volume).1;
      prev_cluster = cluster;
    }

unfoldable pub write_cluster : ℕ → Bytes → ℕ → Storing → Bool × Storing
unfolding to_copy
write_cluster cluster content size s =
    let n = to_copy size s in
    let (ok, drive) =
      ata_write_sectors (cluster_to_lba cluster s.volume) (s.volume.bpb.sectors_per_cluster % 2 ^ 8)
        (to_words (chunk s.bytes_written n content)) s.volume.drive in
    (
      ok,
      record s { volume = record s.volume { drive = drive }; bytes_written = s.bytes_written + n },
    )

unfoldable pub store_cluster : ℕ → Bytes → ℕ → Option ℕ × Volume → Storing → Bool × Storing
unfolding give_up link write_cluster
store_cluster i content size (none, v) s = (false, give_up (record s { volume = v }))
store_cluster i content size (some cluster, v) s =
    write_cluster cluster content size (link i cluster (record s { volume = v }))

-- The loop from cluster `i` on.
unfoldable pub store_loop : ℕ → ℕ → Bytes → ℕ → Storing → Bool × Storing
unfolding store_cluster
store_loop zero i content size s = (true, s)
store_loop (suc rounds) i content size s =
    let stored = store_cluster i content size (fat_alloc_cluster s.volume) s in
    let rest = store_loop rounds (i + 1) content size stored.1 in if stored.0 then rest else stored

-- The 16 words of a directory entry.
unfoldable pub pack : List ℕ → List ℕ
pack [] = []
pack (a ∷ []) = a ∷ []
pack (a ∷ b ∷ rest) = (a + b * 256) ∷ pack rest

unfoldable pub dirent_words : List ℕ × List ℕ → ℕ → ℕ → List ℕ
unfolding pack
dirent_words (name, ext) first_cluster size =
    pack (name ++ ext ++ (0x20 ∷ []))
    ++ (0 ∷ 0 ∷ 0 ∷ 0 ∷ 0 ∷ 0 ∷ 0 ∷ first_cluster ∷ size % 2 ^ 16 ∷ size / 2 ^ 16 ∷ [])

abbrev pub put_dirent : ℕ → List ℕ → Words → Words
put_dirent e entry buf i =
    if leb (e * 16) i && ltb i (e * 16 + 16) then get_or entry (i - e * 16) 0 else buf i

-- The sector of the slot is read, changed, and written back.
unfoldable pub rewrite_sector : ℕ → (Words → Words) → Option Words → Volume → Bool × Volume
rewrite_sector lba f none v = (false, v)
rewrite_sector lba f (some buf) v =
    let (ok, drive) = ata_write_sectors lba 1 (f buf) v.drive in (ok, record v { drive = drive })

unfoldable pub change_sector : ℕ → (Words → Words) → Volume → Bool × Volume
unfolding rewrite_sector
change_sector lba f v = rewrite_sector lba f (ata_read_sectors lba 1 v.drive) v

-- Behind the loop: the last link, then the directory entry.
unfoldable pub finish_write : List ℕ → Slot → ℕ → ℕ → Bool × Storing → Bool × Volume
unfolding change_sector dirent_words
finish_write filename slot clusters_needed size (false, s) = (false, s.volume)
finish_write filename slot clusters_needed size (true, s) =
    let ended =
      if ltb 0 clusters_needed
      then (fat_write_entry s.prev_cluster fat_entry_end s.volume).1
      else s.volume in
    change_sector slot.sector
      (put_dirent slot.index (dirent_words (to_fat_name filename) s.first_cluster size)) ended

abbrev pub clusters_for : ℕ → Volume → ℕ
clusters_for size v =
    if size == 0 then 0 else (size + cluster_bytes v + 2 ^ 32 - 1) % 2 ^ 32 / cluster_bytes v

unfoldable pub write_at : List ℕ → Bytes → ℕ → Option Slot → Volume → Bool × Volume
unfolding store_loop finish_write free_existing
write_at filename content size none v = (false, v)
write_at filename content size (some slot) v =
    let freed = free_existing slot.existing v in
    let n = clusters_for size freed in
    finish_write filename slot n size (
      store_loop n 0 content size
        (record { volume = freed; first_cluster = 0; prev_cluster = 0; bytes_written = 0 }))

unfoldable pub fat16_write_file : List ℕ → Bytes → ℕ → Volume → Bool × Volume
unfolding find_dirent_slot write_at
fat16_write_file filename content size v =
    if not v.mounted
    then (false, v)
    else write_at filename content size (find_dirent_slot filename v) v

-- The first byte of the entry becomes 0xE5.
abbrev pub mark_deleted : ℕ → Words → Words
mark_deleted e buf = update buf (e * 16) (buf (e * 16) / 256 * 256 + 0xe5)

unfoldable pub delete_existing : Slot → Option Dirent → Volume → Bool × Volume
unfolding change_sector free_existing
delete_existing slot none v = (false, v)
delete_existing slot (some d) v =
    change_sector slot.sector (mark_deleted slot.index) (free_existing (some d) v)

unfoldable pub delete_at : Option Slot → Volume → Bool × Volume
unfolding delete_existing
delete_at none v = (false, v)
delete_at (some slot) v = delete_existing slot slot.existing v

unfoldable pub fat16_delete_file : List ℕ → Volume → Bool × Volume
unfolding find_dirent_slot delete_at
fat16_delete_file filename v =
    if not v.mounted then (false, v) else delete_at (find_dirent_slot filename v) v
