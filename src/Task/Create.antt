-- ===== src/Task/Create.antt =====
-- kernel/task.c: `task_init`, the three ways to create a task, and the plain accessors.
pub mod Early
use kronked_os.Prelude.{
  ℕ, ◌+◌, ◌-◌, ◌*◌, ◌%◌, ◌^◌, Bool, true, false, Option, none, some, List, [], ◌∷◌, ◌++◌, length,
}
use kronked_os.Task.{Task, Tasks, ready, at_task}

-- `STACK_SIZE`
abbrev pub stack_size : ℕ
stack_size = 8192

-- The fields that both `task_init` and `task_alloc_common` set; `kmalloc` leaves the others as they
-- were in the block, `old`.
unfoldable pub fresh_task : Task → ℕ → Option ℕ → Task
fresh_task old id parent = record old {
  id = id;
  state = ready;
  parent = parent;
  exit_code = 0;
  use_input_redirect = false;
  input_head = 0;
  input_tail = 0;
  vga_redirect_buf = 0;
  vga_redirect_dirty = false;
}

-- `kernel_dir` is `paging_kernel_directory_phys()`.
unfoldable pub task_init : Task → ℕ → Tasks → Tasks
task_init old kernel_dir s =
    let main : Task = record (fresh_task old s.next_task_id none) {
      is_user = false;
      page_directory = kernel_dir;
      kernel_stack_top = 0;
    } in
    record s { ring = main ∷ []; next_task_id = (s.next_task_id + 1) % 2 ^ 32; task_count = 1 }

-- The new task stands directly behind the running one.
unfoldable pub link_task : Task → List Task → List Task
link_task t [] = t ∷ []
link_task t (c ∷ ts) = c ∷ t ∷ ts

unfoldable pub current_id : List Task → Option ℕ
current_id [] = none
current_id (c ∷ ts) = some c.id

-- `task_alloc_common`: the task is READY and in the list when this returns its pointer.
unfoldable pub task_alloc_common : Task → Tasks → ℕ × Tasks
unfolding current_id
task_alloc_common old s = (
  s.next_task_id,
  record s {
    ring = link_task (fresh_task old s.next_task_id (current_id s.ring)) s.ring;
    next_task_id = (s.next_task_id + 1) % 2 ^ 32;
    task_count = s.task_count + 1;
  },
)

-- What its callers do next: assign to the fields of the task that it returned.
unfoldable pub assign : (Task → Task) → ℕ × Tasks → ℕ × Tasks
assign set (id, s) = (id, record s { ring = at_task id set s.ring })

-- Words pushed below `top`, and where the stack pointer ends.
unfoldable pub prepare_stack : ℕ → List ℕ → Task → Task
prepare_stack top words t = record t {
  kernel_stack_top = top;
  stack = words;
  esp = top - 4 * length words;
}

-- `trampoline` is the address of `task_trampoline`, `stack_mem` what `kmalloc` returned.
unfoldable pub set_kernel : ℕ → ℕ → ℕ → ℕ → Task → Task
set_kernel trampoline entry kernel_dir stack_mem t =
    prepare_stack (stack_mem + stack_size) (0 ∷ 0 ∷ 0 ∷ 0 ∷ trampoline ∷ [])
      (record t { is_user = false; entry = entry; page_directory = kernel_dir })

unfoldable pub task_create : ℕ → Task → ℕ → ℕ → ℕ → Tasks → ℕ × Tasks
task_create trampoline old entry kernel_dir stack_mem s =
    assign (set_kernel trampoline entry kernel_dir stack_mem) (task_alloc_common old s)

unfoldable pub set_user : ℕ → ℕ → ℕ → ℕ → ℕ → Task → Task
set_user trampoline dir_phys user_entry user_stack_top stack_mem t =
    prepare_stack (stack_mem + stack_size) (0 ∷ 0 ∷ 0 ∷ 0 ∷ trampoline ∷ []) (record t {
      is_user = true;
      user_entry = user_entry;
      user_stack_top = user_stack_top;
      page_directory = dir_phys;
    })

unfoldable pub task_create_user : ℕ → Task → ℕ → ℕ → ℕ → ℕ → Tasks → ℕ × Tasks
task_create_user trampoline old dir_phys user_entry user_stack_top stack_mem s =
    assign (set_user trampoline dir_phys user_entry user_stack_top stack_mem)
      (task_alloc_common old s)

-- The frame comes as its words; `return_tail` is the address of `syscall_return_tail`.
unfoldable pub set_forked : ℕ → ℕ → List ℕ → ℕ → Task → Task
set_forked return_tail dir_phys frame stack_mem t =
    prepare_stack (stack_mem + stack_size) (0 ∷ 0 ∷ 0 ∷ 0 ∷ return_tail ∷ frame)
      (record t { is_user = true; page_directory = dir_phys })

unfoldable pub task_create_forked : ℕ → Task → ℕ → List ℕ → ℕ → Tasks → ℕ × Tasks
task_create_forked return_tail old dir_phys frame stack_mem s =
    assign (set_forked return_tail dir_phys frame stack_mem) (task_alloc_common old s)

unfoldable pub task_set_page_directory : ℕ → ℕ → Tasks → Tasks
task_set_page_directory id dir_phys s = record s {
  ring = at_task id (λ t. record t { page_directory = dir_phys }) s.ring;
}

unfoldable pub task_start_scheduling : Tasks → Tasks
task_start_scheduling s = record s { scheduling_enabled = true }
