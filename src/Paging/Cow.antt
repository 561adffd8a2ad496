-- ===== src/Paging/Cow.antt =====
-- `paging_handle_cow_fault` of kernel/paging.c.
pub mod Resolve
pub mod Fault
use kronked_os.Prelude.{
  ℕ, ◌+◌, ◌/◌, ◌%◌, ◌^◌, ◌≤◌, Bool, true, false, not, ◌&&◌, ◌==◌, leb, if◌then◌else◌,
}
use kronked_os.Pmm.{pmm_free_frame, pmm_frame_refcount}
use kronked_os.Paging.Entry.{page_of, entry, is_present, is_cow, unshare_flags}
use kronked_os.Paging.{
  Paging, read_word, write_word, fill_frame, pd_index, pt_index, alloc, set_entry,
}

-- The sole owner gets write access back.
unfoldable pub reclaim : ℕ → ℕ → ℕ → Paging → Bool × Paging
reclaim table index e s = (true, set_entry index (page_of e) (unshare_flags e) (table, s))

-- The copy of a shared page into the new frame, or a failure where there is none.
unfoldable pub copy_page : ℕ → ℕ → ℕ → ℕ × Paging → Bool × Paging
copy_page table index e (new_phys, s) =
    if new_phys == 0
    then (false, s)
    else let copied = fill_frame new_phys (s.mem (page_of e / 4096)) s in
      let dropped : Paging = record copied { pmm = pmm_free_frame (page_of e) copied.pmm } in
      (true, set_entry index new_phys (unshare_flags e) (table, dropped))

-- The fault at a present copy-on-write entry `e`.
unfoldable pub resolve : ℕ → ℕ → ℕ → Paging → Bool × Paging
unfolding reclaim copy_page
resolve table index e s =
    if leb (pmm_frame_refcount (page_of e) s.pmm) 1
    then reclaim table index e s
    else copy_page table index e (alloc s)

unfoldable pub fault_at_entry : ℕ → ℕ → ℕ → Paging → Bool × Paging
fault_at_entry table index e s =
    if not (is_present e)
    then (false, s)
    else if not (is_cow e)
    then (false, s)
    else resolve table index e s

unfoldable pub paging_handle_cow_fault : ℕ → Paging → Bool × Paging
unfolding fault_at_entry
paging_handle_cow_fault fault_addr s =
    let d = read_word s s.cr3 (pd_index fault_addr) in
    let table = page_of d in
    let i = pt_index fault_addr in
    if not (is_present d) then (false, s) else fault_at_entry table i (read_word s table i) s
