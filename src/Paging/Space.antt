-- ===== src/Paging/Space.antt =====
-- kernel/paging.c: `paging_clone_address_space` (copy-on-write fork) and its teardown,
-- `paging_free_address_space`.
pub mod Frames
pub mod Teardown
pub mod Fork
use kronked_os.Prelude.{
  ℕ, zero, suc, ◌+◌, ◌-◌, ◌*◌, ◌/◌, ◌%◌, ◌^◌, Bool, true, false, not, if◌then◌else◌,
}
use kronked_os.Pmm.{pmm_free_frame, pmm_frame_addref}
use kronked_os.Paging.Entry.{page_of, entry, is_present, share_flags, drop_present}
use kronked_os.Paging.{
  Paging, read_word, write_word, paging_clone_kernel_directory, paging_map_user_page,
  identity_map_tables, entries_per_table,
}

-- The body of the inner loop at a present entry `e` of the parent: one more reference, the parent's
-- entry made read-only and copy-on-write, and the same entry for the child.
unfoldable pub share_page : ℕ → ℕ → ℕ → ℕ → ℕ → Paging → Paging
share_page child table pd pt e s =
    let flags = share_flags (drop_present e) in
    let phys = page_of e in
    let counted : Paging = record s { pmm = pmm_frame_addref phys s.pmm } in
    (paging_map_user_page child phys (pd * 2 ^ 22 + pt * 2 ^ 12) flags
      (write_word table pt (entry phys flags) counted)).1

unfoldable pub share_entry : ℕ → ℕ → ℕ → ℕ → Paging → Paging
unfolding share_page
share_entry child table pd pt s =
    let e = read_word s table pt in
    if not (is_present e) then s else share_page child table pd pt e s

-- The entries of one table from `pt` on.
unfoldable pub share_table : ℕ → ℕ → ℕ → ℕ → ℕ → Paging → Paging
share_table child table pd zero pt s = s
share_table child table pd (suc rounds) pt s =
    share_table child table pd rounds (pt + 1) (share_entry child table pd pt s)

unfoldable pub share_directory_entry : ℕ → ℕ → ℕ → Paging → Paging
share_directory_entry child parent pd s =
    let d = read_word s parent pd in
    if not (is_present d) then s else share_table child (page_of d) pd entries_per_table 0 s

-- The directory from entry `pd` on.
unfoldable pub share_directory : ℕ → ℕ → ℕ → ℕ → Paging → Paging
share_directory child parent zero pd s = s
share_directory child parent (suc rounds) pd s =
    share_directory child parent rounds (pd + 1) (share_directory_entry child parent pd s)

unfoldable pub share_into : ℕ → ℕ × Paging → ℕ × Paging
share_into parent (child, s) =
    (child, share_directory child parent (1024 - identity_map_tables) identity_map_tables s)

unfoldable pub paging_clone_address_space : ℕ → Paging → ℕ × Paging
paging_clone_address_space parent s = share_into parent (paging_clone_kernel_directory s)

-- Teardown: the frame of one entry.
unfoldable pub free_entry : ℕ → ℕ → Paging → Paging
free_entry table pt s =
    let e = read_word s table pt in
    if not (is_present e)
    then s
    else write_word table pt 0 (record s { pmm = pmm_free_frame (page_of e) s.pmm })

unfoldable pub free_entries : ℕ → ℕ → ℕ → Paging → Paging
free_entries table zero pt s = s
free_entries table (suc rounds) pt s = free_entries table rounds (pt + 1) (free_entry table pt s)

-- The frame of the table itself, and its directory entry.
unfoldable pub free_table : ℕ → ℕ → ℕ → Paging → Paging
free_table dir pd table s = write_word dir pd 0 (record s { pmm = pmm_free_frame table s.pmm })

unfoldable pub free_directory_entry : ℕ → ℕ → Paging → Paging
free_directory_entry dir pd s =
    let d = read_word s dir pd in
    if not (is_present d)
    then s
    else free_table dir pd (page_of d) (free_entries (page_of d) entries_per_table 0 s)

unfoldable pub free_directory : ℕ → ℕ → ℕ → Paging → Paging
free_directory dir zero pd s = s
free_directory dir (suc rounds) pd s =
    free_directory dir rounds (pd + 1) (free_directory_entry dir pd s)

unfoldable pub paging_free_address_space : ℕ → Paging → Paging
paging_free_address_space dir s =
    free_directory dir (1024 - identity_map_tables) identity_map_tables s
