-- ===== src/Syscall/Tests.antt =====
-- The theorems on kernel/syscall.c at a fork, at a wait for a child that is dead and at an exec.
use kronked_os.Prelude.{
  ℕ, ◌≡◌, refl, false, none, some, List, [], ◌∷◌, ◌&&◌, ◌==◌, if◌then◌else◌, arith,
}
use kronked_os.Prelude.Bits.{has_bit}
use kronked_os.Paging.{Frame, read_word, pd_index}
use kronked_os.Paging.Entry.{is_present, page_of}
use kronked_os.Paging.Map.{pte, if_present}
use kronked_os.Heap.{kfree}
use kronked_os.Task.{Task, Tasks, ready, zombie, is_zombie, find_task}
use kronked_os.Task.Valid.{IsValid, count_id}
use kronked_os.Task.Exit.{
  Release, reaped, releases, reap, wait_for, task_wait_specific, is_child, scan_children,
  after_scan, wait_any_running, task_wait_any, kernel_stack, task_struct, unlink_task,
}
use kronked_os.Machine.{Machine, physical, frame_of, with_tasks}
use kronked_os.Samples.{memory, machine, task, tasks}
use kronked_os.Syscall.{Registers, Outside, sys_fork, sys_wait, release_all, release}
use kronked_os.Syscall.Fork.{Forks, sys_fork_lem}
use kronked_os.Syscall.Exec.{sys_exec}
use kronked_os.Syscall.Replace.{ExecOutcome, sys_exec_lem}
use kronked_os.Syscall.Stores.{Points, slot}
use kronked_os.Syscall.Wait.{Reports, sys_wait_stores}

abbrev caller : Registers
caller = record {
  ds = 0x23;
  edi = 0;
  esi = 0;
  ebp = 0;
  esp_orig = 0;
  ebx = 0x40000000;
  edx = 0;
  ecx = 0;
  eax = 4;
  int_no = 128;
  err_code = 0;
  eip = 0x40000100;
  cs = 0x1b;
  eflags = 0x202;
  useresp = 0xbffff000;
  ss = 0x23;
}

-- The caller's directory in frame 256 leads from 0x40000000 through a table in frame 257 to frame
-- 258, read-only and copy-on-write.
abbrev pages : ℕ → Frame
pages n i = if n == 256 && i == 256 then 0x101007 else if n == 257 && i == 0 then 0x102205 else 0

abbrev self : Task
self = record (task 1 none ready) { is_user = false }

abbrev child : Task
child = record (task 2 (some 1) zombie) { is_user = false }

abbrev two : Tasks
two = tasks (self ∷ child ∷ [])

two-IsValid : IsValid two
unfolding count_id
two-IsValid = record { unique = λ i. ground arith; below = λ i h. ground arith; counted = refl }

abbrev stubs : Outside
stubs = record { return_tail = 0x100200; block = child }

abbrev before : Machine
before = machine two (memory pages)

sys_fork_lem_example : Forks stubs caller before (sys_fork stubs caller before)
sys_fork_lem_example = sys_fork_lem stubs caller before two-IsValid

abbrev freed : List Release
freed = kernel_stack 0x400000 ∷ task_struct 2 ∷ []

abbrev left : Tasks
left = record two { ring = self ∷ []; task_count = 1 }

two_reaped : task_wait_any two ≡ reaped 2 7 freed left
unfolding task_wait_any wait_any_running scan_children is_child after_scan task_wait_specific
    wait_for find_task reap releases unlink_task is_zombie
two_reaped = refl

abbrev behind : Machine
behind = release_all freed (with_tasks left before)

behind_leads : physical behind.heap.paging 0x40000000 ≡ some 0x102000
unfolding release_all release kfree physical frame_of pte if_present is_present has_bit read_word
    with_tasks
behind_leads = refl

behind_table : page_of (read_word behind.heap.paging 0x100000 (pd_index 0x40000000)) ≡ 0x101000
unfolding release_all release kfree read_word with_tasks
behind_table = refl

behind_word : read_word behind.heap.paging 0x102000 (slot 0x40000000) ≡ 0
unfolding release_all release kfree read_word with_tasks
behind_word = refl

behind-Points : Points behind.heap.paging 0x40000000 0x102000
unfolding release_all release kfree with_tasks
behind-Points = record {
  leads = behind_leads;
  not_directory = omega arith;
  not_table = λ e. absurd (omega (arith, e, behind_table));
}

sys_wait_stores_example : Reports caller 2 7 behind 0x102000 (sys_wait caller before)
sys_wait_stores_example =
    sys_wait_stores caller before 2 7 0x102000 freed left two_reaped refl refl (omega arith)
      (omega arith) behind-Points (omega (arith, behind_word))

-- The name at the caller's pointer is empty.
sys_exec_lem_example :
    ExecOutcome 100 100 (λ _. 0) caller before (sys_exec 100 100 (λ _. 0) caller before)
sys_exec_lem_example = sys_exec_lem 100 100 (λ _. 0) caller before
