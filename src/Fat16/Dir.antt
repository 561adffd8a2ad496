-- ===== src/Fat16/Dir.antt =====
-- kernel/fat16.c: 8.3 names and the root directory.
pub mod Names
use kronked_os.Prelude.{
  ℕ, zero, suc, ◌+◌, ◌-◌, ◌*◌, ◌^◌, Bool, true, false, ◌&&◌, not, Option, none, some, List, [], ◌∷◌,
  ◌++◌, ◌==◌, leb, if◌then◌else◌,
}
use kronked_os.Prelude.Bits.{has_bit}
use kronked_os.Ata.{Words, ata_read_sectors}
use kronked_os.Fat16.{Volume, byte_at, short_at}

abbrev pub space : ℕ
space = 0x20

abbrev pub dot : ℕ
dot = 0x2e

unfoldable pub to_upper : ℕ → ℕ
to_upper c = if leb 97 c && leb c 122 then c - 32 else c

-- A string is the list of its characters before the NUL. The loops of `to_fat_name`: at most `room`
-- characters up to the dot, in upper case, then spaces; what stands from the first dot on; and at most
-- `room` characters whatever they are.
unfoldable pub spaces : ℕ → List ℕ
spaces zero = []
spaces (suc n) = space ∷ spaces n

unfoldable pub name_part : ℕ → List ℕ → List ℕ
name_part zero input = []
name_part (suc room) [] = spaces (suc room)
name_part (suc room) (c ∷ input) =
    if c == dot then spaces (suc room) else to_upper c ∷ name_part room input

unfoldable pub after_dot : List ℕ → List ℕ
after_dot [] = []
after_dot (c ∷ input) = if c == dot then input else after_dot input

unfoldable pub ext_part : ℕ → List ℕ → List ℕ
ext_part zero input = []
ext_part (suc room) [] = spaces (suc room)
ext_part (suc room) (c ∷ input) = to_upper c ∷ ext_part room input

-- The 8 characters of the name and the 3 of the extension.
unfoldable pub to_fat_name : List ℕ → List ℕ × List ℕ
unfolding spaces name_part after_dot ext_part
to_fat_name input = (name_part 8 input, ext_part 3 (after_dot input))

-- `struct fat16_dirent`
pub record Dirent : Type 0 where
  pub name : List ℕ
  pub ext : List ℕ
  pub attr : ℕ
  pub reserved : List ℕ
  pub write_time : ℕ
  pub write_date : ℕ
  pub first_cluster : ℕ
  pub file_size : ℕ

unfoldable pub bytes_from : ℕ → ℕ → Words → List ℕ
bytes_from zero k buf = []
bytes_from (suc n) k buf = byte_at buf k ∷ bytes_from n (k + 1) buf

-- Entry `e` of a sector: 32 bytes.
unfoldable pub dirent_at : Words → ℕ → Dirent
unfolding bytes_from
dirent_at buf e = record {
  name = bytes_from 8 (e * 32) buf;
  ext = bytes_from 3 (e * 32 + 8) buf;
  attr = byte_at buf (e * 32 + 11);
  reserved = bytes_from 10 (e * 32 + 12) buf;
  write_time = short_at buf (e * 32 + 22);
  write_date = short_at buf (e * 32 + 24);
  first_cluster = short_at buf (e * 32 + 26);
  file_size = short_at buf (e * 32 + 28) + short_at buf (e * 32 + 30) * 2 ^ 16;
}

abbrev pub first_byte : List ℕ → ℕ
first_byte [] = 0
first_byte (c ∷ cs) = c

-- `ATTR_VOLUME_ID` is bit 3 and `ATTR_DIRECTORY` is bit 4.
unfoldable pub is_file : Dirent → Bool
is_file d = not (has_bit d.attr 3) && not (has_bit d.attr 4)

unfoldable pub same_text : List ℕ → List ℕ → Bool
same_text [] bs = true
same_text (a ∷ rest) [] = true
same_text (a ∷ rest) (b ∷ bs) = a == b && same_text rest bs

unfoldable pub is_match : List ℕ × List ℕ → Dirent → Bool
unfolding same_text
is_match (want_name, want_ext) d = same_text d.name want_name && same_text d.ext want_ext

-- What a scan does at an entry.
pub data Seen : Type 0 where
  last deleted skipped other matching : Seen

unfoldable pub see : List ℕ × List ℕ → Dirent → Seen
unfolding is_file is_match
see want d =
    if first_byte d.name == 0
    then last
    else if first_byte d.name == 0xe5
    then deleted
    else if not (is_file d)
    then skipped
    else if is_match want d
    then matching
    else other

-- The scan of one sector from entry `e`, with `rounds` entries left, and what it ends with.
pub data Scan : Type 0 where
  found : ℕ → Dirent → Scan
  at_end : Scan
  go_on : Scan
  unread : Scan

unfoldable pub step : Seen → ℕ → Dirent → Scan → Scan
step last e d rest = at_end
step deleted e d rest = rest
step skipped e d rest = rest
step other e d rest = rest
step matching e d rest = found e d

unfoldable pub scan_sector : List ℕ × List ℕ → ℕ → ℕ → Words → Scan
unfolding step see
scan_sector want zero e buf = go_on
scan_sector want (suc rounds) e buf =
    let rest = scan_sector want rounds (e + 1) buf in
    step (see want (dirent_at buf e)) e (dirent_at buf e) rest

unfoldable pub scan_read : List ℕ × List ℕ → Option Words → Scan
unfolding scan_sector
scan_read want none = unread
scan_read want (some buf) = scan_sector want 16 0 buf

-- `struct fat16_file`
pub record File : Type 0 where
  pub first_cluster : ℕ
  pub file_size : ℕ

unfoldable pub found_file : Scan → Option File → Option File
found_file (found e d) rest =
    some (record { first_cluster = d.first_cluster; file_size = d.file_size })
found_file at_end rest = none
found_file go_on rest = rest
found_file unread rest = none

-- The loop over the sectors of the root directory from `s`.
unfoldable pub find_loop : List ℕ × List ℕ → ℕ → ℕ → Volume → Option File
unfolding found_file scan_read
find_loop want zero s v = none
find_loop want (suc sectors) s v =
    let rest = find_loop want sectors (s + 1) v in
    found_file (scan_read want (ata_read_sectors (v.root_dir_start_lba + s) 1 v.drive)) rest

unfoldable pub fat16_find_file : List ℕ → Volume → Option File
unfolding find_loop to_fat_name
fat16_find_file filename v =
    if not v.mounted then none else find_loop (to_fat_name filename) v.root_dir_sectors 0 v

-- `fat16_list_root`: the name of an entry as the callback gets it.
unfoldable pub until_space : List ℕ → List ℕ
until_space [] = []
until_space (c ∷ cs) = if c == space then [] else c ∷ until_space cs

unfoldable pub shown_ext : List ℕ → List ℕ
unfolding until_space
shown_ext [] = []
shown_ext (c ∷ cs) = if c == space then [] else dot ∷ until_space (c ∷ cs)

unfoldable pub shown_name : Dirent → List ℕ
unfolding until_space shown_ext
shown_name d = until_space d.name ++ shown_ext d.ext

-- The callback's arguments, in order, and whether the scan goes on to the next sector.
unfoldable pub list_step : Seen → Dirent → List (List ℕ × ℕ) × Bool → List (List ℕ × ℕ) × Bool
unfolding shown_name
list_step last d rest = ([], false)
list_step deleted d rest = rest
list_step skipped d rest = rest
list_step other d (calls, more) = ((shown_name d, d.file_size) ∷ calls, more)
list_step matching d (calls, more) = ((shown_name d, d.file_size) ∷ calls, more)

unfoldable pub list_sector : ℕ → ℕ → Words → List (List ℕ × ℕ) × Bool
unfolding list_step
list_sector zero e buf = ([], true)
list_sector (suc rounds) e buf =
    let rest = list_sector rounds (e + 1) buf in
    list_step (see ([], []) (dirent_at buf e)) (dirent_at buf e) rest

unfoldable pub list_read : Option Words → List (List ℕ × ℕ) × Bool
unfolding list_sector
list_read none = ([], false)
list_read (some buf) = list_sector 16 0 buf

unfoldable pub list_loop : ℕ → ℕ → Volume → List (List ℕ × ℕ)
unfolding list_read
list_loop zero s v = []
list_loop (suc sectors) s v =
    let rest = list_loop sectors (s + 1) v in
    let (calls, more) = list_read (ata_read_sectors (v.root_dir_start_lba + s) 1 v.drive) in
    if more then calls ++ rest else calls

unfoldable pub fat16_list_root : Volume → List (List ℕ × ℕ)
unfolding list_loop
fat16_list_root v = if not v.mounted then [] else list_loop v.root_dir_sectors 0 v
