-- ===== src/Paging/Space/Teardown.antt =====
-- What `paging_free_address_space` of kernel/paging.c leaves.
use kronked_os.Prelude.{
  ℕ, zero, suc, ◌+◌, ◌-◌, ◌/◌, ◌<◌, ◌≤◌, ◌≡◌, refl, true, false, ◌&&◌, ◌==◌, Bool-cases, arith, inl,
  inr,
}
use kronked_os.Pmm.{pmm_free_frame}
use kronked_os.Pmm.Valid.{IsValid, pmm_free_frame-IsValid}
use kronked_os.Prelude.Bits.{has_bit}
use kronked_os.Paging.Entry.{page_of, is_present}
use kronked_os.Paging.{Paging, read_word, write_word, identity_map_tables, entries_per_table}
use kronked_os.Paging.Map.{read-write}
use kronked_os.Paging.Space.Frames.{Separate, drop_all, directory_frames, freed_frames}
use kronked_os.Paging.Space.{
  free_entry, free_entries, free_table, free_directory_entry, free_directory,
  paging_free_address_space,
}

abbrev Valid : Paging → Type 0
Valid s = IsValid s.pmm

free_entry-Valid : (table pt : ℕ) (s : Paging) → Valid s → Valid (free_entry table pt s)
unfolding free_entry write_word
free_entry-Valid table pt s v = elim (Bool-cases (is_present (read_word s table pt))) [
  | inl here ↦ rw here (pmm_free_frame-IsValid (page_of (read_word s table pt)) v)
  | inr gone ↦ rw gone v
]

free_entries-Valid : (table n pt : ℕ) (s : Paging) → Valid s → Valid (free_entries table n pt s)
unfolding free_entries
free_entries-Valid table zero pt s v = v
free_entries-Valid table (suc n) pt s v =
    free_entries-Valid table n (pt + 1) (free_entry table pt s) (free_entry-Valid table pt s v)

free_directory_entry-Valid :
    (dir pd : ℕ) (s : Paging) → Valid s → Valid (free_directory_entry dir pd s)
unfolding free_directory_entry free_table write_word
free_directory_entry-Valid dir pd s v = elim (Bool-cases (is_present (read_word s dir pd))) [
  | inl here ↦ rw here (
      pmm_free_frame-IsValid (page_of (read_word s dir pd))
        (free_entries-Valid (page_of (read_word s dir pd)) 1024 0 s v))
  | inr gone ↦ rw gone v
]

free_directory-Valid : (dir n pd : ℕ) (s : Paging) → Valid s → Valid (free_directory dir n pd s)
unfolding free_directory
free_directory-Valid dir zero pd s v = v
free_directory-Valid dir (suc n) pd s v =
    free_directory-Valid dir n (pd + 1) (free_directory_entry dir pd s)
      (free_directory_entry-Valid dir pd s v)

-- Present nowhere but where it was before: the teardown writes only zeroes.
absent_zero : is_present 0 ≡ false
unfolding is_present has_bit
absent_zero = refl

zero_keeps :
    (b j a i : ℕ) (s : Paging)
    → is_present (read_word s a i) ≡ false
    → is_present (read_word (write_word b j 0 s) a i) ≡ false
zero_keeps b j a i s h = elim (Bool-cases ((b / 4096 == a / 4096) && j == i)) [
  | inl hit ↦ simp (read-write, hit) absent_zero
  | inr miss ↦ simp (read-write, miss) h
]

free_entry-keeps :
    (table pt a i : ℕ) (s : Paging)
    → is_present (read_word s a i) ≡ false
    → is_present (read_word (free_entry table pt s) a i) ≡ false
unfolding free_entry
free_entry-keeps table pt a i s h = elim (Bool-cases (is_present (read_word s table pt))) [
  | inl here ↦ rw here (
      zero_keeps table pt a i
        (record s { pmm = pmm_free_frame (page_of (read_word s table pt)) s.pmm })
        (unfold read_word in h))
  | inr gone ↦ rw gone h
]

free_entries-keeps :
    (table n pt a i : ℕ) (s : Paging)
    → is_present (read_word s a i) ≡ false
    → is_present (read_word (free_entries table n pt s) a i) ≡ false
unfolding free_entries
free_entries-keeps table zero pt a i s h = h
free_entries-keeps table (suc n) pt a i s h =
    free_entries-keeps table n (pt + 1) a i (free_entry table pt s)
      (free_entry-keeps table pt a i s h)

free_table-clears :
    (dir pd i table : ℕ) (s : Paging)
    → (pd == i) ≡ true
    → is_present (read_word (free_table dir pd table s) dir i) ≡ false
unfolding free_table
free_table-clears dir pd i table s e =
    let hit : ((dir / 4096 == dir / 4096) && pd == i) ≡ true = ground arith in
    simp (read-write, hit) absent_zero

free_table-keeps :
    (dir pd table a i : ℕ) (s : Paging)
    → is_present (read_word s a i) ≡ false
    → is_present (read_word (free_table dir pd table s) a i) ≡ false
unfolding free_table
free_table-keeps dir pd table a i s h =
    zero_keeps dir pd a i (record s { pmm = pmm_free_frame table s.pmm }) (unfold read_word in h)

entry_clears :
    (dir pd i : ℕ) (s : Paging)
    → (pd == i) ≡ true
    → is_present (read_word (free_directory_entry dir pd s) dir i) ≡ false
unfolding free_directory_entry
entry_clears dir pd i s e = elim (Bool-cases (is_present (read_word s dir pd))) [
  | inl here ↦ rw here (free_table-clears dir pd i _ _ e)
  | inr gone ↦ let k : pd ≡ i = ground arith in rw (gone, ← k) gone
]

entry_keeps :
    (dir pd a i : ℕ) (s : Paging)
    → is_present (read_word s a i) ≡ false
    → is_present (read_word (free_directory_entry dir pd s) a i) ≡ false
unfolding free_directory_entry
entry_keeps dir pd a i s h = elim (Bool-cases (is_present (read_word s dir pd))) [
  | inl here ↦ rw here (
      free_table-keeps dir pd _ a i _
        (free_entries-keeps (page_of (read_word s dir pd)) 1024 0 a i s h))
  | inr gone ↦ rw gone h
]

directory_keeps :
    (dir n pd a i : ℕ) (s : Paging)
    → is_present (read_word s a i) ≡ false
    → is_present (read_word (free_directory dir n pd s) a i) ≡ false
unfolding free_directory
directory_keeps dir zero pd a i s h = h
directory_keeps dir (suc n) pd a i s h =
    directory_keeps dir n (pd + 1) a i (free_directory_entry dir pd s) (entry_keeps dir pd a i s h)

directory_clears :
    (dir n pd i : ℕ) (s : Paging)
    → pd ≤ i
    → i < pd + n
    → is_present (read_word (free_directory dir n pd s) dir i) ≡ false
unfolding free_directory
directory_clears dir zero pd i s lo hi = absurd (omega arith)
directory_clears dir (suc n) pd i s lo hi = elim (Bool-cases (pd == i)) [
  | inl now ↦
      directory_keeps dir n (pd + 1) dir i (free_directory_entry dir pd s)
        (entry_clears dir pd i s now)
  | inr later ↦
      directory_clears dir n (pd + 1) i (free_directory_entry dir pd s) (ground arith) (omega arith)
]

-- Where the tables of a directory's user entries lie in frames of their own, apart from the
-- directory's: `paging_free_address_space` gives one reference back for each page of each present user
-- entry's table and one for the table, in this order, and does nothing else to the frame allocator,
-- whose state stays valid. It leaves no user entry of the directory present, and makes no entry of
-- any table present that was not.
pub paging_free_address_space_lem :
    (dir : ℕ) (s : Paging)
    → IsValid s.pmm
    → Separate s dir
    → ((paging_free_address_space dir s).pmm
        ≡ drop_all
            (directory_frames s dir (entries_per_table - identity_map_tables) identity_map_tables)
            s.pmm)
      × IsValid (paging_free_address_space dir s).pmm
      × ((i : ℕ)
          → identity_map_tables ≤ i
          → i < entries_per_table
          → is_present (read_word (paging_free_address_space dir s) dir i) ≡ false)
      × ((a i : ℕ)
          → is_present (read_word s a i) ≡ false
          → is_present (read_word (paging_free_address_space dir s) a i) ≡ false)
unfolding paging_free_address_space
paging_free_address_space_lem dir s v sep = (
  freed_frames dir s sep,
  free_directory-Valid dir 1008 16 s v,
  λ i lo hi. directory_clears dir 1008 16 i s lo (omega arith),
  λ a i h. directory_keeps dir 1008 16 a i s h,
)
