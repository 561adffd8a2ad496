-- ===== src/Syscall/Fork.antt =====
-- kernel/syscall.c: fork, from the caller's registers to the child's first return.
use kronked_os.Prelude.{ℕ, ◌+◌, ◌*◌, ◌≡◌, refl, true, false, some, List, [], ◌∷◌, ◌==◌, arith}
use kronked_os.Task.{Task, ready, find_task, at_task}
use kronked_os.Task.Create.{
  link_task, fresh_task, task_alloc_common, task_create_forked, assign, set_forked, prepare_stack,
  current_id,
}
use kronked_os.Task.Valid.{IsValid, count_id}
use kronked_os.Paging.Space.{paging_clone_address_space}
use kronked_os.Machine.{Machine, with_paging}
use kronked_os.Syscall.{
  Registers, Result, returns, Outside, register_words, sys_fork, create_child, self_dir,
}

found_new :
    (id : ℕ) (t : Task) (f : Task → Task) (ts : List Task)
    → (t.id == id) ≡ true
    → ((f t).id == id) ≡ true
    → count_id id ts ≡ 0
    → find_task id (at_task id f (link_task t ts)) ≡ some (f t)
unfolding find_task at_task link_task count_id
found_new id t f [] e k h = rw (e, k) refl
found_new id t f (c ∷ ts) e k h =
    let other : (c.id == id) ≡ false = ground (arith, h) in rw (other, other, e, k) refl

-- The child that fork makes, and the caller's own return.
pub record Forks (o : Outside) (r : Registers) (m : Machine) (result : Result) : Type 0 where
  pub machine : Machine
  pub child : Task
  pub returns_id : result ≡ returns (record r { eax = m.tasks.next_task_id }) machine
  pub found : find_task m.tasks.next_task_id machine.tasks.ring ≡ some child
  pub frame : child.stack ≡ 0 ∷ 0 ∷ 0 ∷ 0 ∷ o.return_tail ∷ register_words (record r { eax = 0 })
  pub space : child.page_directory ≡ (paging_clone_address_space (self_dir m) m.heap.paging).0
  pub runnable : child.state ≡ ready
  pub of_parent : child.parent ≡ current_id m.tasks.ring
  pub esp : child.esp + 4 * 21 ≡ child.kernel_stack_top

-- fork in a valid state of the tasks returns the new task's id to its caller, with all other registers
-- as they were; the task of that id is then READY, a child of the caller, with the copied
-- address space and a stack from which its first run returns through the system call's tail with
-- the caller's registers, but for 0 in eax.
pub sys_fork_lem :
    (o : Outside) (r : Registers) (m : Machine) → IsValid m.tasks → Forks o r m (sys_fork o r m)
unfolding sys_fork create_child task_create_forked assign set_forked prepare_stack task_alloc_common
    fresh_task with_paging register_words
sys_fork_lem o r m v = record {
  machine = _;
  child = _;
  returns_id = refl;
  found =
      found_new m.tasks.next_task_id _ _ m.tasks.ring (ground arith) (ground arith)
        (v.below m.tasks.next_task_id (omega arith));
  frame = refl;
  space = refl;
  runnable = refl;
  of_parent = refl;
  esp = omega arith;
}
