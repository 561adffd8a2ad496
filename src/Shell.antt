-- ===== src/Shell.antt =====
-- kernel/shell.c: the commands of the shell. The programs that read keys of their
-- own (edit, snake, desktop, mutextest and kronk) are results that name them.
pub mod Run
pub mod Loop
pub mod Command
mod Tests
use kronked_os.Prelude.{
  ℕ, zero, suc, ◌+◌, ◌-◌, ◌*◌, ◌/◌, ◌%◌, ◌^◌, Bool, true, false, not, ◌||◌, Option, none, some,
  List, [], ◌∷◌, ◌++◌, ◌==◌, if◌then◌else◌, length, update,
}
use kronked_os.Prelude.Text.{text}
use kronked_os.Digits.{dec_digits}
use kronked_os.Task.{Task, Tasks}
use kronked_os.Task.Create.{stack_size, task_create_user}
use kronked_os.Task.Exit.{Waited, sleeps, reaped, no_children, dangling, task_wait_specific}
use kronked_os.Pmm.{Pmm, pmm_free_frame_count, pmm_detected_ram_kib}
use kronked_os.Paging.{Paging, alloc, paging_clone_kernel_directory}
use kronked_os.Heap.{Heap, kmalloc, kfree}
use kronked_os.Fat16.{Volume}
use kronked_os.Fat16.Dir.{File, fat16_find_file, fat16_list_root}
use kronked_os.Fat16.Files.{Bytes, ReadResult, failed, done, running, fat16_read_file}
use kronked_os.Fat16.Store.{fat16_delete_file}
use kronked_os.Elf.{elf_load}
use kronked_os.Vga.{Vga}
use kronked_os.Vga.Put.{vga_clear}
use kronked_os.Editor.{c_string, str_eq, bytes_at, read_line}
use kronked_os.Machine.{Machine, with_paging, with_tasks, print}
use kronked_os.Syscall.{log, release_all, task_struct_size}
use kronked_os.Syscall.Exec.{user_stack_vaddr, map_stack}

unfoldable pub skip_blanks : List ℕ → List ℕ
skip_blanks [] = []
skip_blanks (c ∷ s) = let rest = skip_blanks s in if c == 32 then rest else c ∷ s

unfoldable pub command_word : List ℕ → List ℕ
command_word [] = []
command_word (c ∷ s) = let rest = command_word s in if c == 32 then [] else c ∷ rest

unfoldable pub argument : List ℕ → List ℕ
unfolding skip_blanks
argument [] = []
argument (c ∷ s) = let rest = argument s in if c == 32 then skip_blanks s else rest

unfoldable pub split_command : List ℕ → List ℕ × List ℕ
unfolding command_word argument
split_command line = (command_word line, argument line)

unfoldable pub print_all : List (List ℕ) → Machine → Machine
print_all [] m = m
print_all (s ∷ ss) m = print_all ss (print s m)

unfoldable pub print_dec_vga : ℕ → Machine → Machine
print_dec_vga n m = print (dec_digits n) m

unfoldable pub cmd_help : Machine → Machine
unfolding print_all
cmd_help m =
    print_all
      (text "Available commands:\n"
        ∷ text "  help            show this list\n"
        ∷ text "  ls              list files on disk\n"
        ∷ text "  cat <file>      print a file's contents\n"
        ∷ text "  rm <file>       delete a file\n"
        ∷ text "  edit <file>     create or edit a text file (line editor)\n"
        ∷ text "  run <file>      load and run an ELF program from disk (ring 3)\n"
        ∷ text "  echo <text>     print text back\n"
        ∷ text "  meminfo         show free physical memory\n"
        ∷ text "  uptime          show timer ticks since boot\n"
        ∷ text "  clear           clear the screen\n"
        ∷ text "  snake           play Snake (w/a/s/d to move, q to quit)\n"
        ∷ text "  mutextest       verify mutex correctness (2 tasks, shared counter)\n"
        ∷ text "  kronk <file>    write a program with 'edit', run it with no compiler\n"
        ∷ text "  desktop         graphical desktop: open terminals/editors, drag, close (X)\n"
        ∷ [])
      m

unfoldable pub spaces : ℕ → List ℕ
spaces zero = []
spaces (suc n) = 32 ∷ spaces n

unfoldable pub ls_callback : List ℕ → ℕ → Machine → Machine
unfolding print_dec_vga spaces
ls_callback name size m =
    print (text " bytes\n")
      (print_dec_vga size (print (spaces (14 - length name)) (print name (print (text "  ") m))))

unfoldable pub list_files : List (List ℕ × ℕ) → Machine → Machine
unfolding ls_callback
list_files [] m = m
list_files ((name, size) ∷ files) m = list_files files (ls_callback name size m)

unfoldable pub cmd_ls : Machine → Machine
unfolding list_files
cmd_ls m = list_files (fat16_list_root m.volume) (print (text "Files on disk:\n") m)

-- The programs that go on with the keyboard.
pub data Program : Type 0 where
  editor snake desktop mutex_test kronk : Program

-- What a command comes to: the shell prompts again, waits for a child, where `before` is the number
-- of frames that were free, starts a program, reads a file that has not ended, or follows a pointer to
-- no task.
pub data Done : Type 0 where
  prompts : Machine → Done
  waits_for : (child before : ℕ) → Machine → Done
  starts : Program → List ℕ → Machine → Done
  reads_on crashes : Done

unfoldable pub print_three : List ℕ → List ℕ → List ℕ → Machine → Machine
print_three a b c m = print c (print b (print a m))

unfoldable pub free_at : ℕ → Machine → Machine
free_at p m = record m { heap = kfree p m.heap }

unfoldable pub show_file : ℕ → Bytes → Machine → Machine
unfolding free_at
show_file size buf m =
    let shown = print (c_string (bytes_at buf size 0)) m in
    if size == 0 || not (buf (size - 1) == 10) then print (text "\n") shown else shown

-- `cmd_cat` behind the read, with its buffer at `p`.
unfoldable pub cat_read : ℕ → ℕ → ReadResult → Machine → Done
unfolding show_file
cat_read p size running m = reads_on
cat_read p size failed m = prompts (free_at p (print (text "cat: read failed\n") m))
cat_read p size (done buf) m = prompts (free_at p (show_file size buf m))

-- `rounds` bounds the loop of a read, `old` is what its buffer holds, `trampoline` is the first code of
-- a task and `block` what its struct's memory holds.
pub record ShellContext : Type 0 where
  pub rounds : ℕ
  pub old : Bytes
  pub trampoline : ℕ
  pub block : Task

unfoldable pub cat_found : ShellContext → List ℕ → Option File → Machine → Done
unfolding cat_read print_three
cat_found x filename none m =
    prompts (print_three (text "cat: file not found: ") filename (text "\n") m)
cat_found x filename (some f) m =
    let (p, h) = kmalloc (f.file_size + 1) m.heap in
    cat_read p f.file_size (fat16_read_file x.rounds f x.old f.file_size m.volume)
      (record m { heap = h })

unfoldable pub cmd_cat : ShellContext → List ℕ → Machine → Done
unfolding cat_found
cmd_cat x filename m =
    if length filename == 0
    then prompts (print (text "usage: cat <file>\n") m)
    else cat_found x filename (fat16_find_file filename m.volume) m

unfoldable pub removed : List ℕ → Bool × Volume → Machine → Machine
removed filename (ok, v) m =
    let m' = record m { volume = v } in
    if ok
    then print_three (text "Deleted ") filename (text ".\n") m'
    else print_three (text "rm: file not found: ") filename (text "\n") m'

unfoldable pub cmd_rm : List ℕ → Machine → Machine
unfolding removed print_three
cmd_rm filename m =
    if length filename == 0
    then print (text "usage: rm <file>\n") m
    else removed filename (fat16_delete_file filename m.volume) m

unfoldable pub cmd_meminfo : Machine → Machine
unfolding print_dec_vga
cmd_meminfo m =
    let frames = pmm_free_frame_count m.heap.paging.pmm in
    print (text " KiB)\n") (
      print_dec_vga (frames * 4 % 2 ^ 32)
        (print (text " (") (print_dec_vga frames (print (text "Free physical frames: ") m))))

unfoldable pub cmd_uptime : Machine → Machine
unfolding print_dec_vga
cmd_uptime m = print (text "\n") (print_dec_vga m.tick (print (text "Timer ticks since boot: ") m))

unfoldable pub cmd_clear : Machine → Machine
cmd_clear m = let (s, v) = vga_clear (m.tasks, m.vga) in record m { tasks = s; vga = v }
