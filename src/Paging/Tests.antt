-- ===== src/Paging/Tests.antt =====
-- The theorems on kernel/paging.c at small address spaces.
use kronked_os.Prelude.{
  ◌≢◌, ◌∙◌, inl, inr, ℕ, ◌<◌, ◌≤◌, ◌≡◌, refl, ◌⊎◌, ◌&&◌, [], ◌∷◌, true, false, some, ◌==◌,
  if◌then◌else◌, arith,
}
use kronked_os.Pmm.Valid.{IsValid}
use kronked_os.Pmm.Tests.{
  booted, booted-IsValid, frame_0_used, frame_256_used, frame_257_used, frame_258_used, allocates,
}
use kronked_os.Prelude.Bits.{has_bit}
use kronked_os.Paging.Entry.{entry, is_present, is_cow}
use kronked_os.Paging.{
  Paging, Frame, read_word, pd_index, identity_map_tables, entries_per_table, paging_map_user_page,
}
use kronked_os.Paging.Map.{pte, CanMap, paging_map_user_page_lem}
use kronked_os.Paging.Cow.{paging_handle_cow_fault}
use kronked_os.Paging.Cow.Resolve.{SharedAt, Resolved}
use kronked_os.Paging.Cow.Fault.{paging_handle_cow_fault_lem, is_cow_page}
use kronked_os.Paging.Space.{paging_free_address_space}
use kronked_os.Pmm.Valid.{pmm_frame_addref-IsValid}
use kronked_os.Pmm.{pmm_frame_addref, pmm_alloc_frame}
use kronked_os.Pmm.Alloc.{pmm_alloc_frame_lem}
use kronked_os.Pmm.Tests.{frame_512_free}
use kronked_os.Pmm.Bitmap.{bitmap_test}
use kronked_os.Paging.{write_word}
use kronked_os.Paging.Space.{share_page}
use kronked_os.Paging.Space.Fork.{Shared, counted, address, share_page_lem}
use kronked_os.Paging.Space.Frames.{Separate, drop_all, table_frames, directory_frames}
use kronked_os.Paging.Space.Teardown.{paging_free_address_space_lem}

-- The directory in frame 256, its table for 0x40000000 in frame 257, and there one copy-on-write
-- page, in frame 258: present, user, bit 9.
abbrev words : ℕ → Frame
words f i = if f == 256 && i == 256 then 0x101007 else if f == 257 && i == 0 then 0x102205 else 0

abbrev machine : (ℕ → Frame) → Paging
machine mem = record {
  pmm = booted;
  mem = mem;
  page_directory = 0x100000;
  page_tables = 0x110000;
  kernel_directory_phys = 0x100000;
  cr3 = 0x100000;
}

abbrev empty_machine : Paging
empty_machine = machine (λ _ _. 0)

empty_CanMap : CanMap empty_machine 0x100000 0x40000000
unfolding read_word is_present has_bit
empty_CanMap = record {
  valid = booted-IsValid;
  reserved = frame_0_used;
  held = frame_256_used;
  apart = λ h. ground arith;
  left = λ _. allocates;
}

paging_map_user_page_lem_example :
    ((pd_index 0x40000000 < identity_map_tables)
      × (paging_map_user_page 0x100000 0x200000 0x40000000 6 empty_machine
          ≡ (false, empty_machine)))
    ⊎ ((identity_map_tables ≤ pd_index 0x40000000)
        × ((paging_map_user_page 0x100000 0x200000 0x40000000 6 empty_machine).0 ≡ true)
        × (pte
              (paging_map_user_page 0x100000 0x200000 0x40000000 6 empty_machine).1
              0x100000
              0x40000000
            ≡ some (entry 0x200000 6)))
paging_map_user_page_lem_example =
    paging_map_user_page_lem empty_machine 0x100000 0x200000 0x40000000 6 empty_CanMap

shared : SharedAt (machine words) 0x40000000 0x101000 0x102205
unfolding read_word is_present has_bit is_cow
shared = record {
  directory = refl;
  table_is = refl;
  entry_is = refl;
  present = refl;
  cow = refl;
  valid = booted-IsValid;
  reserved = frame_0_used;
  tracked = omega arith;
  table_held = frame_257_used;
  page_held = frame_258_used;
  apart = λ e. absurd (omega arith);
}

paging_handle_cow_fault_lem_example :
    Resolved
      (machine words)
      0x40000000
      0x101000
      0x102205
      (paging_handle_cow_fault 0x40000000 (machine words))
paging_handle_cow_fault_lem_example =
    paging_handle_cow_fault_lem (machine words) 0x40000000 0x101000 0x102205 shared

not_shared : is_cow_page 0x40000000 empty_machine ≡ false
unfolding is_cow_page read_word is_present has_bit
not_shared = refl

words-Separate : Separate (machine words) 0x100000
unfolding read_word is_present has_bit
words-Separate = record {
  apart = λ i p lo hi. ground arith;
  distinct = λ i j p q lo lt hi. ground arith;
}

-- The page in frame 258 and the table in frame 257 are given back.
words_frames : directory_frames (machine words) 0x100000 1008 16 ≡ 0x102000 ∷ 0x101000 ∷ []
unfolding directory_frames table_frames read_word is_present has_bit
words_frames = refl

paging_free_address_space_lem_example :
    ((paging_free_address_space 0x100000 (machine words)).pmm
      ≡ drop_all (directory_frames (machine words) 0x100000 1008 16) booted)
    × IsValid (paging_free_address_space 0x100000 (machine words)).pmm
    × ((i : ℕ)
        → identity_map_tables ≤ i
        → i < entries_per_table
        → is_present (read_word (paging_free_address_space 0x100000 (machine words)) 0x100000 i)
          ≡ false)
    × ((a i : ℕ)
        → is_present (read_word (machine words) a i) ≡ false
        → is_present (read_word (paging_free_address_space 0x100000 (machine words)) a i) ≡ false)
paging_free_address_space_lem_example =
    paging_free_address_space_lem 0x100000 (machine words) booted-IsValid words-Separate

-- The parent's table in frame 257 maps frame 258; the child's directory, in frame 256, is empty.
abbrev forking : Paging
forking = counted 0x101000 0 0x102007 empty_machine

forking-IsValid : IsValid forking.pmm
unfolding write_word
forking-IsValid = pmm_frame_addref-IsValid 0x102000 frame_258_used booted-IsValid

forking_marks : (f : ℕ) → bitmap_test forking.pmm.bitmap f ≡ bitmap_test booted.bitmap f
unfolding write_word pmm_frame_addref
forking_marks f = refl

forking_left : (pmm_alloc_frame forking.pmm).0 ≢ 0
forking_left = elim (pmm_alloc_frame_lem forking-IsValid (forking_marks 0 ∙ frame_0_used)) [
  | inl (f, e, ne, lt, c) ↦ ne
  | inr (e, same, all) ↦ cc (all 512 (omega arith), frame_512_free, forking_marks 512)
]

no_table : read_word forking 0x100000 256 ≡ 0
unfolding read_word write_word
no_table = refl

forking-CanMap : CanMap forking 0x100000 (address 256 0)
unfolding read_word is_present has_bit write_word
forking-CanMap = record {
  valid = forking-IsValid;
  reserved = forking_marks 0 ∙ frame_0_used;
  held = forking_marks 256 ∙ frame_256_used;
  apart = λ h. ground arith;
  left = λ _. forking_left;
}

share_page_lem_example :
    Shared 0x100000 0x101000 256 0 0x102007
      (share_page 0x100000 0x101000 256 0 0x102007 empty_machine)
share_page_lem_example =
    share_page_lem 0x100000 0x101000 256 0 0x102007 empty_machine (omega arith) (omega arith)
      forking-CanMap (λ e. absurd (omega arith)) (forking_marks 257 ∙ frame_257_used)
      (λ e. absurd (omega (arith, no_table)))
