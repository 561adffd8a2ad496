-- ===== src/Syscall/Replace.antt =====
-- kernel/syscall.c: what exec comes to, whether it succeeds or fails.
use kronked_os.Prelude.{
  ℕ, ◌≡◌, refl, sym, ap, ◌∙◌, Bool, true, false, not, Option, none, some, List, ◌==◌, if◌then◌else◌,
  ◌⊎◌, inl, inr,
}
use kronked_os.Task.Create.{task_set_page_directory}
use kronked_os.Task.Redirect.{current_field}
use kronked_os.Paging.{Paging, alloc, paging_map_user_page, paging_clone_kernel_directory}
use kronked_os.Pmm.{pmm_free_frame}
use kronked_os.Paging.Space.{paging_free_address_space}
use kronked_os.Heap.{kmalloc}
use kronked_os.Fat16.Dir.{File, fat16_find_file}
use kronked_os.Fat16.Files.{Bytes, ReadResult, failed, done, running, fat16_read_file}
use kronked_os.Elf.{elf_load, ehdr_at, bad_magic, load_segments, entry_after, u32_at}
use kronked_os.Machine.{Machine, with_paging, with_tasks, read_string}
use kronked_os.Syscall.{
  Registers, Result, returns, switches, waits, faults, reads_on, minus_one, log, self_dir, self_id,
}
use kronked_os.Syscall.Exec.{
  free_space, map_stack, enter_directory, replace_image, exec_fails, after_elf, after_clone,
  after_read, exec_found, exec_named, sys_exec,
}

-- The file that the caller names.
pub record Chosen (limit : ℕ) (r : Registers) (m : Machine) : Type 0 where
  pub filename : List ℕ
  pub file : File
  pub named : read_string limit r.ebx m.heap.paging ≡ some filename
  pub found : fat16_find_file filename m.volume ≡ some file

abbrev pub read_of :
    (limit rounds : ℕ) (old : Bytes) (r : Registers) (m : Machine) → Chosen limit r m → ReadResult
read_of limit rounds old r m c = fat16_read_file rounds c.file old c.file.file_size m.volume

pub record Missing (limit : ℕ) (r : Registers) (m : Machine) : Type 0 where
  pub filename : List ℕ
  pub named : read_string limit r.ebx m.heap.paging ≡ some filename
  pub missing : fat16_find_file filename m.volume ≡ none

pub record Unread (limit rounds : ℕ) (old : Bytes) (r : Registers) (m : Machine) (o : ReadResult)
    : Type 0 where
  pub chosen : Chosen limit r m
  pub read : read_of limit rounds old r m chosen ≡ o

-- The new directory and the state behind its allocation, which follows that of the file's buffer.
abbrev pub new_space : File → Machine → ℕ × Paging
new_space file m = paging_clone_kernel_directory (kmalloc file.file_size m.heap).1.paging

pub record Refused (limit rounds : ℕ) (old : Bytes) (r : Registers) (m : Machine) : Type 0 where
  pub chosen : Chosen limit r m
  pub image : Bytes
  pub read : read_of limit rounds old r m chosen ≡ done image
  pub refused : (elf_load image (new_space chosen.file m).0 (new_space chosen.file m).1).0 ≡ none

-- exec has failed, with its reason: the caller's registers but for eax, and all tasks, are as they were.
pub record Fails (limit rounds : ℕ) (old : Bytes) (r : Registers) (m : Machine) (r' : Registers)
    (m' : Machine) : Type 0 where
  pub registers : r' ≡ record r { eax = minus_one }
  pub tasks : m'.tasks ≡ m.tasks
  pub reason :
      Missing limit r m ⊎ (Unread limit rounds old r m failed ⊎ Refused limit rounds old r m)

-- The stack's page, writable and for user mode, at its place; and a directory that is given back with
-- all that it leads to.
abbrev pub with_stack : ℕ → Paging → Paging
with_stack dir s = (paging_map_user_page dir (alloc s).0 0x40100000 6 (alloc s).1).1

abbrev pub given_back : ℕ → Paging → Paging
given_back dir s = record (paging_free_address_space dir s) {
  pmm = pmm_free_frame dir (paging_free_address_space dir s).pmm;
}

-- exec has succeeded: the caller goes on at the entry of the file that it named, with a fresh stack and
-- in a new directory, and nothing else of the tasks has changed.
pub record Replaces (limit rounds : ℕ) (old : Bytes) (r : Registers) (m : Machine) (r' : Registers)
    (m' : Machine) : Type 0 where
  pub chosen : Chosen limit r m
  pub image : Bytes
  pub read : read_of limit rounds old r m chosen ≡ done image
  pub loaded :
      (elf_load image (new_space chosen.file m).0 (new_space chosen.file m).1).0
      ≡ some (u32_at image 24)
  pub registers :
      r'
      ≡ record r { eip = u32_at image 24; useresp = 0x40101000; eax = 0; ebx = 0; ecx = 0; edx = 0 }
  pub tasks :
      m'.tasks
      ≡ record (task_set_page_directory
          (current_field (λ t. t.id) m.tasks.ring)
          (new_space chosen.file m).0
          m.tasks) { cr3 = (new_space chosen.file m).0 }
  pub paging :
      m'.heap.paging
      ≡ given_back
          (current_field (λ t. t.page_directory) m.tasks.ring)
          (record (with_stack
            (new_space chosen.file m).0
            (elf_load image (new_space chosen.file m).0 (new_space chosen.file m).1).1) {
              cr3 = (new_space chosen.file m).0;
            })

-- The other results: a name that cannot be read, or a read of the file that has not ended.
abbrev pub ExecOutcome : ℕ → ℕ → Bytes → Registers → Machine → Result → Type 0
ExecOutcome limit rounds old r m (returns r' m') =
    Fails limit rounds old r m r' m' ⊎ Replaces limit rounds old r m r' m'
ExecOutcome limit rounds old r m (switches m') = true ≡ false
ExecOutcome limit rounds old r m (waits m') = true ≡ false
ExecOutcome limit rounds old r m faults = read_string limit r.ebx m.heap.paging ≡ none
ExecOutcome limit rounds old r m reads_on = Unread limit rounds old r m running

-- The entry that elf_load gives is the file's.
Enters : Bytes → Option ℕ → Type 0
Enters b none = true ≡ true
Enters b (some e) = e ≡ u32_at b 24

entry_after-Enters : (b : Bytes) (x : Bool × Paging) → Enters b (entry_after (u32_at b 24) x).0
unfolding entry_after Enters
entry_after-Enters b (true, s) = refl
entry_after-Enters b (false, s) = refl

either_fails :
    (b : Bytes) (c : Bool) (s : Paging) (x : Option ℕ × Paging)
    → Enters b x.0
    → Enters b (if c then (none, s) else x).0
unfolding Enters
either_fails b true s x h = refl
either_fails b false s x h = h

elf_load-Enters : (b : Bytes) (dir : ℕ) (s : Paging) → Enters b (elf_load b dir s).0
unfolding elf_load ehdr_at
elf_load-Enters b dir s =
    let eh = ehdr_at b in
    let loaded = entry_after eh.e_entry (load_segments eh.e_phnum 0 b eh.e_phoff dir (true, s)) in
    let known = not (b 4 == 1) in
    either_fails b (bad_magic eh) s (if known then (none, s) else loaded) (
      either_fails b known s loaded
        (entry_after-Enters b (load_segments eh.e_phnum 0 b eh.e_phoff dir (true, s))))

after_elf-Outcome :
    (limit rounds : ℕ) (old : Bytes) (r : Registers) (m : Machine) (c : Chosen limit r m)
    (image : Bytes) (x : Option ℕ × Paging)
    → read_of limit rounds old r m c ≡ done image
    → elf_load image (new_space c.file m).0 (new_space c.file m).1 ≡ x
    → Enters image x.0
    → ExecOutcome limit rounds old r m (
        after_elf r
          (new_space c.file m).0
          c.filename
          (record m { heap = (kmalloc c.file.file_size m.heap).1 })
          x)
unfolding after_elf exec_fails free_space map_stack replace_image enter_directory with_paging
    with_tasks log self_id self_dir Enters
after_elf-Outcome limit rounds old r m c image (none, s') d l e = inl (record {
  registers = refl;
  tasks = refl;
  reason = inr (inr (record { chosen = c; image = image; read = d; refused = ap (λ y. y.0) l }));
})
after_elf-Outcome limit rounds old r m c image (some entry, s') d l e = inr (record {
  chosen = c;
  image = image;
  read = d;
  loaded = ap (λ y. y.0) l ∙ ap some e;
  registers =
      ap (λ k. record r { eip = k; useresp = 0x40101000; eax = 0; ebx = 0; ecx = 0; edx = 0 }) e;
  tasks = refl;
  paging =
      ap
        (λ y.
          given_back (current_field (λ t. t.page_directory) m.tasks.ring)
            (record (with_stack (new_space c.file m).0 y.1) { cr3 = (new_space c.file m).0 }))
        (sym l);
})

after_read-Outcome :
    (limit rounds : ℕ) (old : Bytes) (r : Registers) (m : Machine) (c : Chosen limit r m)
    (o : ReadResult)
    → read_of limit rounds old r m c ≡ o
    → ExecOutcome limit rounds old r m
        (after_read r c.filename o (record m { heap = (kmalloc c.file.file_size m.heap).1 }))
unfolding after_read after_clone exec_fails
after_read-Outcome limit rounds old r m c running d = record { chosen = c; read = d }
after_read-Outcome limit rounds old r m c failed d = inl (record {
  registers = refl;
  tasks = refl;
  reason = inr (inl (record { chosen = c; read = d }));
})
after_read-Outcome limit rounds old r m c (done image) d =
    let k = new_space c.file m in
    after_elf-Outcome limit rounds old r m c image (elf_load image k.0 k.1) d refl
      (elf_load-Enters image k.0 k.1)

exec_found-Outcome :
    (limit rounds : ℕ) (old : Bytes) (r : Registers) (m : Machine) (filename : List ℕ)
    (o : Option File)
    → read_string limit r.ebx m.heap.paging ≡ some filename
    → fat16_find_file filename m.volume ≡ o
    → ExecOutcome limit rounds old r m (exec_found rounds old r filename o m)
unfolding exec_found exec_fails log
exec_found-Outcome limit rounds old r m filename none n f = inl (record {
  registers = refl;
  tasks = refl;
  reason = inl (record { filename = filename; named = n; missing = f });
})
exec_found-Outcome limit rounds old r m filename (some file) n f =
    after_read-Outcome limit rounds old r m
      (record { filename = filename; file = file; named = n; found = f })
      (fat16_read_file rounds file old file.file_size m.volume) refl

exec_named-Outcome :
    (limit rounds : ℕ) (old : Bytes) (r : Registers) (m : Machine) (o : Option (List ℕ))
    → read_string limit r.ebx m.heap.paging ≡ o
    → ExecOutcome limit rounds old r m (exec_named rounds old r o m)
unfolding exec_named
exec_named-Outcome limit rounds old r m none n = n
exec_named-Outcome limit rounds old r m (some filename) n =
    exec_found-Outcome limit rounds old r m filename (fat16_find_file filename m.volume) n refl

-- exec either fails, because there is no file of the name, it cannot be read or elf_load refuses it
-- for the new directory, with eax at -1, the caller's other registers as they were and all tasks as
-- they were; or it puts the caller at the entry point of the file that it named, with the stack pointer
-- at the end of the new stack, zero in eax, ebx, ecx and edx, and the directory that the file was loaded
-- into, the one that paging_clone_kernel_directory has made for it, as its own and in CR3, with nothing
-- else of the tasks changed, the stack mapped there and the caller's old address space and directory
-- given back; or the name cannot be read from the caller's memory within the limit, or the loop that
-- reads the file has not ended within the rounds given.
pub sys_exec_lem :
    (limit rounds : ℕ) (old : Bytes) (r : Registers) (m : Machine)
    → ExecOutcome limit rounds old r m (sys_exec limit rounds old r m)
unfolding sys_exec
sys_exec_lem limit rounds old r m =
    exec_named-Outcome limit rounds old r m (read_string limit r.ebx m.heap.paging) refl
