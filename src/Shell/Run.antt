-- ===== src/Shell/Run.antt =====
-- kernel/shell.c: run, from the file to the child's end.
use kronked_os.Prelude.{ℕ, ◌+◌, Option, none, some, List, ◌==◌, if◌then◌else◌, length, update}
use kronked_os.Prelude.Text.{text}
use kronked_os.Task.Create.{stack_size, task_create_user}
use kronked_os.Task.Exit.{Waited, sleeps, reaped, no_children, dangling, task_wait_specific}
use kronked_os.Pmm.{pmm_free_frame_count}
use kronked_os.Paging.{Paging, alloc, paging_clone_kernel_directory}
use kronked_os.Heap.{kmalloc}
use kronked_os.Fat16.Dir.{File, fat16_find_file}
use kronked_os.Fat16.Files.{Bytes, ReadResult, failed, done, running, fat16_read_file}
use kronked_os.Elf.{elf_load}
use kronked_os.Machine.{Machine, with_paging, with_tasks, print}
use kronked_os.Syscall.{release_all, task_struct_size}
use kronked_os.Syscall.Exec.{user_stack_vaddr, map_stack}
use kronked_os.Shell.{
  print_dec_vga, print_three, Done, prompts, waits_for, reads_on, crashes, ShellContext,
}

-- The child's struct and stack from the heap, and the child.
unfoldable pub create_user : ShellContext → ℕ → ℕ → Machine → ℕ × Machine
create_user x dir entry m =
    let (p, h1) = kmalloc task_struct_size m.heap in
    let (stack_mem, h2) = kmalloc stack_size h1 in
    let (id, tasks) =
      task_create_user x.trampoline x.block dir entry (user_stack_vaddr + 4096) stack_mem m.tasks in
    (id, record m { tasks = tasks; heap = h2; struct_at = update m.struct_at id p })

unfoldable pub run_loaded : ShellContext → ℕ → Machine → Option ℕ × Paging → Done
unfolding create_user
run_loaded x dir m (none, s) =
    prompts (print (text "run: not a valid ELF32 executable\n") (with_paging s m))
run_loaded x dir m (some entry, s) =
    let stacked = with_paging (map_stack dir (alloc s)) m in
    let (child, m') = create_user x dir entry stacked in
    waits_for child (pmm_free_frame_count stacked.heap.paging.pmm)
      (print (text "Running... (waiting for it to finish)\n") m')

unfoldable pub run_cloned : ShellContext → Bytes → Machine → ℕ × Paging → Done
unfolding run_loaded
run_cloned x buf m (dir, s) = run_loaded x dir m (elf_load buf dir s)

unfoldable pub run_read : ShellContext → ReadResult → Machine → Done
unfolding run_cloned
run_read x running m = reads_on
run_read x failed m = prompts (print (text "run: read failed\n") m)
run_read x (done buf) m = run_cloned x buf m (paging_clone_kernel_directory m.heap.paging)

unfoldable pub run_found : ShellContext → List ℕ → Option File → Machine → Done
unfolding run_read print_three
run_found x filename none m =
    prompts (print_three (text "run: file not found: ") filename (text "\n") m)
run_found x filename (some f) m =
    let (p, h) = kmalloc f.file_size m.heap in
    run_read x (fat16_read_file x.rounds f x.old f.file_size m.volume) (record m { heap = h })

unfoldable pub cmd_run : ShellContext → List ℕ → Machine → Done
unfolding run_found
cmd_run x filename m =
    if length filename == 0
    then prompts (print (text "usage: run <file>\n") m)
    else run_found x filename (fat16_find_file filename m.volume) m

-- The end of `cmd_run`.
unfoldable pub report_run : ℕ → ℕ → Machine → Machine
unfolding print_dec_vga
report_run before exit_code m =
    let after = pmm_free_frame_count m.heap.paging.pmm in
    let counted = print (text "\n") (
      print_dec_vga after (
        print (text " after=")
          (print_dec_vga before (print (text "[memcheck] free frames before=") m)))) in
    print (text ".\n")
      (print_dec_vga exit_code (print (text "Process finished with exit code ") counted))

unfoldable pub after_child : ℕ → ℕ → Waited → Machine → Done
unfolding report_run
after_child child before (sleeps s) m = waits_for child before (with_tasks s m)
after_child child before (reaped pid code rel s) m =
    prompts (report_run before code (release_all rel (with_tasks s m)))
after_child child before no_children m = crashes
after_child child before dangling m = crashes

-- A round of the wait in `cmd_run`.
unfoldable pub await_child : ℕ → ℕ → Machine → Done
unfolding after_child
await_child child before m = after_child child before (task_wait_specific child m.tasks) m
