-- ===== src/Syscall/Exec.antt =====
-- kernel/syscall.c: exec.
use kronked_os.Prelude.{ℕ, ◌+◌, Option, none, some, List}
use kronked_os.Prelude.Text.{text}
use kronked_os.Task.Create.{task_set_page_directory}
use kronked_os.Pmm.{pmm_free_frame}
use kronked_os.Paging.{Paging, alloc, paging_clone_kernel_directory, paging_map_user_page}
use kronked_os.Paging.Entry.{page_rw, page_user}
use kronked_os.Paging.Space.{paging_free_address_space}
use kronked_os.Heap.{kmalloc}
use kronked_os.Fat16.Dir.{File, fat16_find_file}
use kronked_os.Fat16.Files.{Bytes, ReadResult, failed, done, running, fat16_read_file}
use kronked_os.Elf.{elf_load}
use kronked_os.Machine.{Machine, with_paging, with_tasks, read_string}
use kronked_os.Syscall.{
  Registers, Result, returns, faults, reads_on, minus_one, log, self_dir, self_id,
}

abbrev pub user_stack_vaddr : ℕ
user_stack_vaddr = 0x40100000

unfoldable pub free_space : ℕ → Paging → Paging
free_space dir s =
    let s' = paging_free_address_space dir s in record s' { pmm = pmm_free_frame dir s'.pmm }

-- The directory of the running task and CR3.
unfoldable pub enter_directory : ℕ → Machine → Machine
enter_directory dir m =
    let tasks = task_set_page_directory (self_id m) dir m.tasks in
    with_tasks (record tasks { cr3 = dir }) m

-- The frame of the stack, which may be 0, at its place in the new directory.
unfoldable pub map_stack : ℕ → ℕ × Paging → Paging
map_stack dir (phys, s) = (paging_map_user_page dir phys user_stack_vaddr (page_rw + page_user) s).1

unfoldable pub replace_image : Registers → ℕ → ℕ → List ℕ → Machine → Result
unfolding map_stack enter_directory free_space
replace_image r dir entry filename m =
    let old_dir = self_dir m in
    let stacked = with_paging (map_stack dir (alloc m.heap.paging)) m in
    let logged =
      log (text "'\n")
        (log filename (log (text "[serial] syscall exec: replacing task image with '") stacked)) in
    let entered = enter_directory dir logged in
    returns
      (record r {
        eip = entry;
        useresp = user_stack_vaddr + 4096;
        eax = 0;
        ebx = 0;
        ecx = 0;
        edx = 0;
      })
      (with_paging (free_space old_dir entered.heap.paging) entered)

unfoldable pub exec_fails : Registers → Machine → Result
exec_fails r m = returns (record r { eax = minus_one }) m

unfoldable pub after_elf : Registers → ℕ → List ℕ → Machine → Option ℕ × Paging → Result
unfolding exec_fails free_space replace_image
after_elf r dir filename m (none, s) =
    exec_fails r
      (with_paging (free_space dir s) (log (text "[serial] syscall exec: not a valid ELF32\n") m))
after_elf r dir filename m (some entry, s) = replace_image r dir entry filename (with_paging s m)

unfoldable pub after_clone : Registers → Bytes → List ℕ → Machine → ℕ × Paging → Result
unfolding after_elf
after_clone r buf filename m (dir, s) = after_elf r dir filename m (elf_load buf dir s)

unfoldable pub after_read : Registers → List ℕ → ReadResult → Machine → Result
unfolding after_clone exec_fails
after_read r filename running m = reads_on
after_read r filename failed m = exec_fails r m
after_read r filename (done buf) m =
    after_clone r buf filename m (paging_clone_kernel_directory m.heap.paging)

-- `old` is what the buffer holds before, and `rounds` bounds the loop of the read.
unfoldable pub exec_found : ℕ → Bytes → Registers → List ℕ → Option File → Machine → Result
unfolding after_read exec_fails
exec_found rounds old r filename none m =
    exec_fails r (log (text "[serial] syscall exec: file not found\n") m)
exec_found rounds old r filename (some f) m =
    let (p, h) = kmalloc f.file_size m.heap in
    after_read r filename (fat16_read_file rounds f old f.file_size m.volume)
      (record m { heap = h })

unfoldable pub exec_named : ℕ → Bytes → Registers → Option (List ℕ) → Machine → Result
unfolding exec_found
exec_named rounds old r none m = faults
exec_named rounds old r (some filename) m =
    exec_found rounds old r filename (fat16_find_file filename m.volume) m

unfoldable pub sys_exec : ℕ → ℕ → Bytes → Registers → Machine → Result
unfolding exec_named
sys_exec limit rounds old r m = exec_named rounds old r (read_string limit r.ebx m.heap.paging) m
