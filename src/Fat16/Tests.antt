-- ===== src/Fat16/Tests.antt =====
-- The theorems on kernel/fat16.c at volumes of 82 clusters.
use kronked_os.Prelude.{
  List, ◌++◌, ◌≤◌, map, ◌≢◌, ℕ, ◌≡◌, refl, true, false, [], ◌∷◌, ◌==◌, if◌then◌else◌, arith,
}
use kronked_os.Ata.{Words}
use kronked_os.Fat16.{Volume, fat_alloc_cluster, fat_free_chain, fat_entry_free, total_clusters}
use kronked_os.Fat16.Dir.{File, Dirent, dot, space, to_upper, to_fat_name, shown_name}
use kronked_os.Fat16.Dir.Names.{ArePlain, shown_name-to_fat_name}
use kronked_os.Fat16.Table.{Healthy, InTable, fat_entry, SameLayout}
use kronked_os.Fat16.Table.Alloc.{Outcome, fat_alloc_cluster_lem}
use kronked_os.Fat16.Table.Chain.{is_in, Chain, fat_free_chain_lem}

-- The table's first copy, in the drive's sector 2049: a chain of the clusters 2 and 5.
abbrev table : ℕ → Words
table n i = if n == 2049 then (if i == 2 then 5 else if i == 5 then 0xffff else 0) else 0

abbrev volume : Volume
volume = record {
  bpb = record {
    bytes_per_sector = 512;
    sectors_per_cluster = 1;
    reserved_sector_count = 1;
    num_fats = 2;
    root_entry_count = 272;
    total_sectors_16 = 100;
    sectors_per_fat = 1;
  };
  fat_start_lba = 1;
  root_dir_start_lba = 3;
  root_dir_sectors = 17;
  data_start_lba = 20;
  mounted = true;
  drive = record { sectors = table; bad = λ _. false };
}

volume-Healthy : Healthy volume
volume-Healthy = record { good = λ _. refl; size = refl; copies = omega arith; room = omega arith }

clusters : total_clusters volume ≡ 82
unfolding total_clusters
clusters = refl

fat_alloc_cluster_lem_example : Outcome volume 2 (total_clusters volume) (fat_alloc_cluster volume)
fat_alloc_cluster_lem_example =
    fat_alloc_cluster_lem volume volume-Healthy (λ b lt. omega (arith, clusters))
      (omega (arith, clusters))

volume-Chain : Chain volume 2 (2 ∷ 5 ∷ [])
unfolding Chain is_in
volume-Chain = (refl, refl, omega arith, refl, (refl, refl, omega arith, refl, refl))

fat_free_chain_lem_example :
    SameLayout volume (fat_free_chain 2 volume)
    × ((b : ℕ)
        → InTable volume b
        → fat_entry (fat_free_chain 2 volume) b
          ≡ (if is_in b (2 ∷ 5 ∷ []) then fat_entry_free else fat_entry volume b))
fat_free_chain_lem_example =
    fat_free_chain_lem volume 2 (2 ∷ 5 ∷ []) volume-Healthy (omega arith) volume-Chain

-- A cluster that is its own successor.
abbrev cyclic : Volume
cyclic = record volume {
  drive = record { sectors = λ n i. if n == 2049 then 2 else 0; bad = λ _. false };
}

abbrev file : File
file = record { first_cluster = 2; file_size = 1000 }

-- "ke.md", as an entry of the directory.
abbrev base : List ℕ
base = 107 ∷ 101 ∷ []

abbrev stored : Dirent
stored = record {
  name = (to_fat_name (base ++ dot ∷ 109 ∷ 100 ∷ [])).0;
  ext = (to_fat_name (base ++ dot ∷ 109 ∷ 100 ∷ [])).1;
  attr = 0x20;
  reserved = [];
  write_time = 0;
  write_date = 0;
  first_cluster = 2;
  file_size = 1000;
}

no_marks : (c : ℕ) → 97 ≤ c → (c ≢ dot) × (c ≢ space)
no_marks c le = (λ e. absurd (omega arith), λ e. absurd (omega arith))

plain_char : (c : ℕ) (cs : List ℕ) → 97 ≤ c → ArePlain cs → ArePlain (c ∷ cs)
plain_char c cs le p = let (a, b) = no_marks c le in (a, b, p)

plain_ext : ArePlain (109 ∷ 100 ∷ [])
plain_ext = plain_char 109 (100 ∷ []) (omega arith) (plain_char 100 [] (omega arith) _)

plain_base : ArePlain base
plain_base = plain_char 107 (101 ∷ []) (omega arith) (plain_char 101 [] (omega arith) _)

shown_name-to_fat_name_example :
    shown_name stored ≡ map to_upper base ++ dot ∷ map to_upper (109 ∷ 100 ∷ [])
shown_name-to_fat_name_example =
    shown_name-to_fat_name base 109 (100 ∷ []) stored plain_base plain_ext (omega arith)
      (omega arith) refl refl
