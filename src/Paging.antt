-- ===== src/Paging.antt =====
-- kernel/paging.c: page directories and tables in physical memory. A frame is read as its 1024
-- words, `mem frame index`; directories, tables and user pages are all such frames, and so are the
-- static arrays `page_directory` and `page_tables`, which are page-aligned. `x & 0xfffff000` is
-- `page_of x`, `x & 0xfff` is `x % 4096`, and `|` of a page address and flags is their sum.
-- CR0.PG, `invlpg` and the serial log are left out.
pub mod Entry
pub mod Map
pub mod Cow
pub mod Space
mod Tests
use kronked_os.Prelude.{
  ℕ, zero, suc, ◌+◌, ◌-◌, ◌*◌, ◌/◌, ◌%◌, ◌^◌, ◌≤◌, Bool, true, false, not, List, [], ◌∷◌, ◌==◌, ltb,
  leb, if◌then◌else◌, update,
}
use kronked_os.Pmm.{Pmm, pmm_alloc_frame, pmm_free_frame, pmm_frame_addref, pmm_frame_refcount}
use kronked_os.Paging.Entry.{
  page_of, entry, is_present, is_cow, page_rw, page_user, share_flags, unshare_flags, drop_present,
}

-- `ENTRIES_PER_TABLE`, `IDENTITY_MAP_TABLES`
abbrev pub entries_per_table : ℕ
entries_per_table = 1024

abbrev pub identity_map_tables : ℕ
identity_map_tables = 16

abbrev pub Frame : Type 0
Frame = ℕ → ℕ

pub record Paging : Type 0 where
  pub pmm : Pmm
  pub mem : ℕ → Frame
  -- the addresses of the two static arrays
  pub page_directory : ℕ
  pub page_tables : ℕ
  pub kernel_directory_phys : ℕ
  pub cr3 : ℕ

-- `((unsigned int *)addr)[index]`, for a page-aligned address.
unfoldable pub read_word : Paging → ℕ → ℕ → ℕ
read_word s addr index = s.mem (addr / 4096) index

unfoldable pub write_word : ℕ → ℕ → ℕ → Paging → Paging
write_word addr index word s = record s {
  mem = update s.mem (addr / 4096) (update (s.mem (addr / 4096)) index word);
}

-- A loop that sets the first 1024 words at `addr`.
unfoldable pub fill_frame : ℕ → Frame → Paging → Paging
fill_frame addr f s = record s { mem = update s.mem (addr / 4096) f }

abbrev pub pd_index : ℕ → ℕ
pd_index virt = virt / 2 ^ 22

abbrev pub pt_index : ℕ → ℕ
pt_index virt = virt / 2 ^ 12 % 1024

-- The inner loop of `paging_init`: table `t` maps its 4 MiB to themselves.
abbrev pub identity_table : ℕ → Frame
identity_table t i = entry ((t * entries_per_table + i) * 4096) page_rw

-- The outer loop, with `rounds` tables left.
unfoldable pub identity_map : ℕ → ℕ → Paging → Paging
identity_map zero t s = s
identity_map (suc rounds) t s =
    let table = s.page_tables + t * 4096 in
    identity_map rounds (t + 1)
      (write_word s.page_directory t (entry table page_rw) (fill_frame table (identity_table t) s))

unfoldable pub paging_init : Paging → Paging
paging_init s =
    let mapped = identity_map identity_map_tables 0 (fill_frame s.page_directory (λ _. 0) s) in
    record mapped { cr3 = mapped.page_directory; kernel_directory_phys = mapped.page_directory }

unfoldable pub paging_map_page : ℕ → ℕ → ℕ → Paging → Bool × Paging
paging_map_page phys virt flags s =
    if leb identity_map_tables (pd_index virt) then (false, s) else (
      true,
      write_word (s.page_tables + pd_index virt * 4096) (pt_index virt) (entry phys flags) s,
    )

-- The allocator's state changes; the frame's address, or 0.
unfoldable pub alloc : Paging → ℕ × Paging
alloc s = let (phys, pmm) = pmm_alloc_frame s.pmm in (phys, record s { pmm = pmm })

-- `dir[i] = page_directory[i]` for all entries.
unfoldable pub copy_kernel_directory : ℕ × Paging → ℕ × Paging
copy_kernel_directory (phys, s) = (phys, fill_frame phys (s.mem (s.page_directory / 4096)) s)

unfoldable pub paging_clone_kernel_directory : Paging → ℕ × Paging
paging_clone_kernel_directory s = copy_kernel_directory (alloc s)

-- A fresh zeroed table, entered in the directory.
unfoldable pub install_table : ℕ → ℕ → ℕ → ℕ × Paging → ℕ × Paging
install_table dir index flags (table, s) =
    (table, write_word dir index (entry table flags) (fill_frame table (λ _. 0) s))

-- The table that holds `virt` in a directory, made on demand.
unfoldable pub user_table : ℕ → ℕ → Paging → ℕ × Paging
unfolding alloc install_table
user_table dir index s =
    if not (is_present (read_word s dir index))
    then install_table dir index (page_rw + page_user) (alloc s)
    else (page_of (read_word s dir index), s)

unfoldable pub set_entry : ℕ → ℕ → ℕ → ℕ × Paging → Paging
set_entry index phys flags (table, s) = write_word table index (entry phys flags) s

unfoldable pub paging_map_user_page : ℕ → ℕ → ℕ → ℕ → Paging → Bool × Paging
unfolding user_table set_entry
paging_map_user_page dir_phys phys virt flags s =
    if ltb (pd_index virt) identity_map_tables
    then (false, s)
    else (true, set_entry (pt_index virt) phys flags (user_table dir_phys (pd_index virt) s))

unfoldable pub paging_switch_directory : ℕ → Paging → Paging
paging_switch_directory dir_phys s = record s { cr3 = dir_phys }

-- Where no table covers the address yet: a new one, if a frame is left.
unfoldable pub map_new_kernel_table : ℕ → ℕ → ℕ → ℕ × Paging → Bool × Paging
unfolding install_table
map_new_kernel_table phys virt flags (table, s) = if table == 0 then (false, s) else (
  true,
  set_entry (pt_index virt) phys flags
      (install_table s.page_directory (pd_index virt) page_rw (table, s)),
)

unfoldable pub paging_map_kernel_page : ℕ → ℕ → ℕ → Paging → Bool × Paging
unfolding alloc set_entry map_new_kernel_table
paging_map_kernel_page phys virt flags s =
    if ltb (pd_index virt) identity_map_tables
    then (true, set_entry (pt_index virt) phys flags (s.page_tables + pd_index virt * 4096, s))
    else if is_present (read_word s s.page_directory (pd_index virt))
    then (
      true,
      set_entry (pt_index virt) phys flags
          (page_of (read_word s s.page_directory (pd_index virt)), s),
    )
    else map_new_kernel_table phys virt flags (alloc s)
