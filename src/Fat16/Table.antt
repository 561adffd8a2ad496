-- ===== src/Fat16/Table.antt =====
-- The file allocation table of kernel/fat16.c as a map from clusters to entries.
pub mod Alloc
pub mod Chain
use mathlib.Core.Path.{subst}
use native.Mathlib.Nat.{mul-le-mul_right}
use kronked_os.Prelude.{
  ℕ, zero, suc, ◌+◌, ◌-◌, ◌*◌, ◌/◌, ◌%◌, ◌^◌, ◌<◌, ◌≤◌, ◌≡◌, refl, ◌≢◌, ap, ◌∙◌, sym, Bool, true,
  false, ◌&&◌, not, Option, none, some, ◌==◌, ltb, leb, if◌then◌else◌, update, arith, inl, inr,
  Bool-cases, ==_iff,
}
use kronked_os.Ata.{
  Words, Drive, drive_sector, all_ready, ata_read_sectors, write_loop, ata_write_sectors,
}
use kronked_os.Fat16.{
  Bpb, Volume, fat_sector, fat_index, pick_word, fat_read_entry, write_back, write_copy,
  write_copies, fat_write_entry,
}

-- A mounted volume on a drive without errors, whose tables lie within the drive's 28-bit range.
pub record Healthy (v : Volume) : Type 0 where
  pub good : (n : ℕ) → v.drive.bad n ≡ false
  pub size : v.bpb.bytes_per_sector ≡ 512
  pub copies : 0 < v.bpb.num_fats
  pub room : v.fat_start_lba + v.bpb.num_fats * v.bpb.sectors_per_fat + 2048 < 2 ^ 28

-- The table has an entry for the cluster.
abbrev pub InTable : Volume → ℕ → Type 0
InTable v c = c / 256 < v.bpb.sectors_per_fat

-- The entry in the first copy.
abbrev pub fat_entry : Volume → ℕ → ℕ
fat_entry v c = v.drive.sectors (v.fat_start_lba + c / 256 + 2048) (c % 256)

-- Only what the drive's sectors hold differs.
pub record SameLayout (v v' : Volume) : Type 0 where
  pub bpb : v'.bpb ≡ v.bpb
  pub start : v'.fat_start_lba ≡ v.fat_start_lba
  pub bad : v'.drive.bad ≡ v.drive.bad
  pub layout : v'.data_start_lba ≡ v.data_start_lba

-- One word of one sector written.
abbrev pub put : ℕ → ℕ → ℕ → Volume → Volume
put lba i x v = record v {
  drive = record v.drive {
    sectors =
        update v.drive.sectors (drive_sector lba)
          (update (λ j. v.drive.sectors (drive_sector lba + j / 256) (j % 256)) i x);
  };
}

read_good :
    (lba : ℕ) (v : Volume)
    → ((n : ℕ) → v.drive.bad n ≡ false)
    → ata_read_sectors lba 1 v.drive
      ≡ some (λ j. v.drive.sectors (drive_sector lba + j / 256) (j % 256))
unfolding ata_read_sectors all_ready
read_good lba v good = simp good

sector_of : (c : ℕ) (v : Volume) → Healthy v → fat_sector c v ≡ c / 256
sector_of c v h =
    let halved : c * 2 / 512 ≡ c / 256 = omega arith in ap (λ n. c * 2 / n) h.size ∙ halved

index_of : (c : ℕ) (v : Volume) → Healthy v → fat_index c v ≡ c % 256
index_of c v h =
    let halved : c * 2 % 512 / 2 ≡ c % 256 = omega arith in ap (λ n. c * 2 % n / 2) h.size ∙ halved

-- The `k`th copy of the table ends before the room for all of them does.
copy_within : (k n m : ℕ) → k < n → k * m + m ≤ n * m
copy_within k n m lt =
    let bound : (k + 1) * m ≤ n * m = mul-le-mul_right m (omega arith) in omega (arith, bound)

-- The sector of a cluster's entry in a copy of the table.
copy_sector :
    (k c : ℕ) (v : Volume)
    → Healthy v
    → InTable v c
    → k < v.bpb.num_fats
    → drive_sector (v.fat_start_lba + k * v.bpb.sectors_per_fat + fat_sector c v)
      ≡ v.fat_start_lba + k * v.bpb.sectors_per_fat + c / 256 + 2048
copy_sector k c v h within lt =
    omega (arith, sector_of c v h, h.room, copy_within k v.bpb.num_fats v.bpb.sectors_per_fat lt)

pub fat_read_entry_lem :
    (c : ℕ) (v : Volume) → Healthy v → InTable v c → fat_read_entry c v ≡ some (fat_entry v c)
unfolding fat_read_entry
fat_read_entry_lem c v h within =
    ap (pick_word (fat_index c v)) (read_good (v.fat_start_lba + fat_sector c v) v h.good)
    ∙ ap some (
        cell (omega (arith, copy_sector 0 c v h within h.copies, small))
          (omega (arith, index_of c v h)))
  where
    small : c % 256 < 256
    small = omega arith

    cell : {a b i j : ℕ} → a ≡ b → i ≡ j → v.drive.sectors a i ≡ v.drive.sectors b j
    cell e k = cc (e, k)

write_copy_eq :
    (lba i x : ℕ) (v : Volume)
    → ((n : ℕ) → v.drive.bad n ≡ false)
    → write_copy lba i x v ≡ (true, put lba i x v)
unfolding write_copy write_back ata_write_sectors write_loop
write_copy_eq lba i x v good = simp (read_good lba v good, good)

put-Healthy : (lba i x : ℕ) (v : Volume) → Healthy v → Healthy (put lba i x v)
put-Healthy lba i x v h = record { good = h.good; size = h.size; copies = h.copies; room = h.room }

-- The entries after one word is written.
put-fat_entry :
    (lba i x c : ℕ) (v : Volume)
    → fat_entry (put lba i x v) c ≡ (
        if (drive_sector lba == v.fat_start_lba + c / 256 + 2048) && i == c % 256
        then x
        else fat_entry v c)
put-fat_entry lba i x c v =
    let low : c % 256 / 256 ≡ 0 = omega arith in
    let same : c % 256 % 256 ≡ c % 256 = omega arith in ground (arith, low, same)

behind_keeps :
    (copy c c' x : ℕ) (v : Volume)
    → Healthy v
    → InTable v c
    → InTable v c'
    → 0 < copy
    → copy < v.bpb.num_fats
    → fat_entry
        (put (v.fat_start_lba + copy * v.bpb.sectors_per_fat + fat_sector c v) (fat_index c v) x v)
        c'
      ≡ fat_entry v c'
behind_keeps copy c c' x v h within w pos lt =
    let lba = v.fat_start_lba + copy * v.bpb.sectors_per_fat + fat_sector c v in
    let past = copy_within 0 copy v.bpb.sectors_per_fat pos in
    let at = copy_sector copy c v h within lt in
    let apart : (drive_sector lba == v.fat_start_lba + c' / 256 + 2048) ≡ false =
      elim (Bool-cases (drive_sector lba == v.fat_start_lba + c' / 256 + 2048)) [
        | inl e ↦ absurd (omega (arith, past, at, (==_iff _ _).0 e))
        | inr e ↦ e
      ] in
    put-fat_entry lba (fat_index c v) x c' v
    ∙ ap (λ b. if b && fat_index c v == c' % 256 then x else fat_entry v c') apart

-- Writing copies from the second on leaves the first copy's entries.
copies_behind :
    (rounds copy c x : ℕ) (v : Volume)
    → Healthy v
    → InTable v c
    → 0 < copy
    → copy + rounds ≤ v.bpb.num_fats
    → ((write_copies rounds copy c x v).0 ≡ true)
      × SameLayout v (write_copies rounds copy c x v).1
      × ((c' : ℕ) → InTable v c' → fat_entry (write_copies rounds copy c x v).1 c' ≡ fat_entry v c')
unfolding write_copies
copies_behind zero copy c x v h within pos le =
    (refl, record { bpb = refl; start = refl; bad = refl; layout = refl }, λ c' w. refl)
copies_behind (suc rounds) copy c x v h within pos le =
    let lba = v.fat_start_lba + copy * v.bpb.sectors_per_fat + fat_sector c v in
    let i = fat_index c v in
    let (ok, same, entries) =
      copies_behind rounds (copy + 1) c x (put lba i x v) (put-Healthy lba i x v h) within
        (omega arith) (omega arith) in
    simp (write_copy_eq lba i x v h.good) (
      ok,
      record { bpb = same.bpb; start = same.start; bad = same.bad; layout = same.layout },
      λ c' w. entries c' w ∙ behind_keeps copy c c' x v h within w pos (omega arith),
    )

-- Sector and index of an entry determine its cluster.
digits :
    (a s c c' i : ℕ)
    → a ≡ s + c / 256 + 2048
    → i ≡ c % 256
    → ((a == s + c' / 256 + 2048) && i == c' % 256) ≡ (c == c')
digits a s c c' i e k = ground arith

first_copy :
    (c c' x : ℕ) (v : Volume)
    → Healthy v
    → InTable v c
    → fat_entry
        (put (v.fat_start_lba + 0 * v.bpb.sectors_per_fat + fat_sector c v) (fat_index c v) x v)
        c'
      ≡ (if c == c' then x else fat_entry v c')
first_copy c c' x v h within =
    let lba = v.fat_start_lba + 0 * v.bpb.sectors_per_fat + fat_sector c v in
    let at = copy_sector 0 c v h within h.copies in
    let i = index_of c v h in
    put-fat_entry lba (fat_index c v) x c' v
    ∙ ap (λ b. if b then x else fat_entry v c')
        (digits (drive_sector lba) v.fat_start_lba c c' (fat_index c v) (omega (arith, at)) i)

copies_written :
    (rounds c x : ℕ) (v : Volume)
    → Healthy v
    → InTable v c
    → 0 < rounds
    → rounds ≤ v.bpb.num_fats
    → ((write_copies rounds 0 c x v).0 ≡ true)
      × SameLayout v (write_copies rounds 0 c x v).1
      × ((c' : ℕ)
          → InTable v c'
          → fat_entry (write_copies rounds 0 c x v).1 c' ≡ (if c == c' then x else fat_entry v c'))
unfolding write_copies
copies_written zero c x v h within pos le = absurd (omega arith)
copies_written (suc rounds) c x v h within pos le =
    let lba = v.fat_start_lba + 0 * v.bpb.sectors_per_fat + fat_sector c v in
    let i = fat_index c v in
    let (ok, same, entries) =
      copies_behind rounds 1 c x (put lba i x v) (put-Healthy lba i x v h) within (omega arith)
        (omega arith) in
    simp (write_copy_eq lba i x v h.good) (
      ok,
      record { bpb = same.bpb; start = same.start; bad = same.bad; layout = same.layout },
      λ c' w. entries c' w ∙ first_copy c c' x v h within,
    )

-- Writing an entry of the table on a healthy volume succeeds and changes that entry alone.
pub fat_write_entry_lem :
    (c x : ℕ) (v : Volume)
    → Healthy v
    → InTable v c
    → ((fat_write_entry c x v).0 ≡ true)
      × SameLayout v (fat_write_entry c x v).1
      × ((c' : ℕ)
          → InTable v c'
          → fat_entry (fat_write_entry c x v).1 c' ≡ (if c == c' then x else fat_entry v c'))
unfolding fat_write_entry
fat_write_entry_lem c x v h within =
    copies_written v.bpb.num_fats c x v h within h.copies (omega arith)

pub SameLayout-Healthy : {v v' : Volume} → SameLayout v v' → Healthy v → Healthy v'
SameLayout-Healthy {v} {v'} s h = record {
  good = λ n. ap (λ f. f n) s.bad ∙ h.good n;
  size = ap (λ b. b.bytes_per_sector) s.bpb ∙ h.size;
  copies = subst (λ b. 0 < b.num_fats) (sym s.bpb) h.copies;
  room = rw (s.bpb, s.start) h.room;
}
