-- ===== src/Syscall.antt =====
-- kernel/syscall.c: the system calls, but for exec, on the saved registers of the caller.
pub mod Exec
pub mod Handler
pub mod Fork
pub mod Stores
pub mod Replace
pub mod Wait
mod Tests
use kronked_os.Prelude.{
  ℕ, zero, suc, ◌+◌, ◌-◌, ◌*◌, ◌/◌, ◌%◌, ◌^◌, Bool, true, false, Option, none, some, List, [], ◌∷◌,
  ◌++◌, ◌==◌, ltb, if◌then◌else◌, update,
}
use kronked_os.Prelude.Int.{ℤ, pos, negsuc}
use kronked_os.Prelude.Text.{text}
use kronked_os.Serial.{serial_write}
use kronked_os.Task.{Task, Tasks}
use kronked_os.Task.Create.{stack_size, task_create_forked}
use kronked_os.Task.Redirect.{current_field}
use kronked_os.Task.Exit.{
  Release, address_space, frame, kernel_stack, task_struct, Waited, sleeps, reaped, no_children,
  dangling, task_exit_current, task_wait_any,
}
use kronked_os.Pmm.{pmm_free_frame}
use kronked_os.Paging.{Paging, paging_map_user_page}
use kronked_os.Paging.Entry.{page_rw, page_user}
use kronked_os.Paging.Space.{paging_clone_address_space, paging_free_address_space}
use kronked_os.Heap.{Heap, kmalloc, kfree}
use kronked_os.Keyboard.{keyboard_has_char, keyboard_getchar}
use kronked_os.Mouse.{Mouse, mouse_init}
use kronked_os.Gui.{Devices, Gui, gui_init, gui_width, gui_height}
use kronked_os.Machine.{Machine, with_paging, with_tasks, print, read_string, write_u32}

-- `struct registers`
pub record Registers : Type 0 where
  pub ds : ℕ
  pub edi : ℕ
  pub esi : ℕ
  pub ebp : ℕ
  pub esp_orig : ℕ
  pub ebx : ℕ
  pub edx : ℕ
  pub ecx : ℕ
  pub eax : ℕ
  pub int_no : ℕ
  pub err_code : ℕ
  pub eip : ℕ
  pub cs : ℕ
  pub eflags : ℕ
  pub useresp : ℕ
  pub ss : ℕ

-- Its words in memory.
unfoldable pub register_words : Registers → List ℕ
register_words r =
    r.ds ∷ r.edi ∷ r.esi ∷ r.ebp ∷ r.esp_orig ∷ r.ebx ∷ r.edx ∷ r.ecx ∷ r.eax ∷ r.int_no
    ∷ r.err_code ∷ r.eip ∷ r.cs ∷ r.eflags ∷ r.useresp ∷ r.ss ∷ []

-- `(unsigned int)-1`
abbrev pub minus_one : ℕ
minus_one = 2 ^ 32 - 1

-- What a system call comes to. `switches` is a call that does not return to its caller, `waits` one
-- that sleeps and starts over when it is woken, and `faults` a page fault or a null task pointer in the
-- kernel; `reads_on` is a loop over a file that has not ended.
pub data Result : Type 0 where
  returns : Registers → Machine → Result
  switches : Machine → Result
  waits : Machine → Result
  faults : Result
  reads_on : Result

unfoldable pub log : List ℕ → Machine → Machine
log s m = record m { vga = record (m.vga) { serial = serial_write s m.vga.serial } }

unfoldable pub write_text : Registers → Machine → Option (List ℕ) → Result
write_text r m none = faults
write_text r m (some s) =
    returns (record r { eax = 0 })
      (log s (log (text "[serial] (from ring3 via syscall) ") (print s m)))

-- `limit` bounds the length of the string.
unfoldable pub sys_write : ℕ → Registers → Machine → Result
unfolding write_text
sys_write limit r m = write_text r m (read_string limit r.ebx m.heap.paging)

unfoldable pub sys_exit : Registers → Machine → Result
sys_exit r m =
    let m' = log (text "[serial] syscall: task called exit()\n") m in
    switches (with_tasks (task_exit_current r.ebx m'.tasks) m')

-- The running task's page directory and id, through `task_get_current`.
unfoldable pub self_dir : Machine → ℕ
self_dir m = current_field (λ t. t.page_directory) m.tasks.ring

unfoldable pub self_id : Machine → ℕ
self_id m = current_field (λ t. t.id) m.tasks.ring

-- `sizeof(struct task)`
abbrev pub task_struct_size : ℕ
task_struct_size = 152

-- What the code outside of C gives: where `syscall_return_tail` is, and what `kmalloc` leaves in the
-- block of a task struct.
pub record Outside : Type 0 where
  pub return_tail : ℕ
  pub block : Task

-- The child's struct and stack from the heap, and the child.
unfoldable pub create_child : Outside → ℕ → Registers → Machine → ℕ × Machine
create_child o child_dir child_regs m =
    let (p, h1) = kmalloc task_struct_size m.heap in
    let (stack_mem, h2) = kmalloc stack_size h1 in
    let (id, tasks) =
      task_create_forked o.return_tail o.block child_dir (register_words child_regs) stack_mem
        m.tasks in
    (id, record m { tasks = tasks; heap = h2; struct_at = update m.struct_at id p })

unfoldable pub sys_fork : Outside → Registers → Machine → Result
unfolding create_child
sys_fork o r m =
    let (child_dir, paging) = paging_clone_address_space (self_dir m) m.heap.paging in
    let (id, m') = create_child o child_dir (record r { eax = 0 }) (with_paging paging m) in
    returns (record r { eax = id }) m'

unfoldable pub release : Release → Machine → Machine
release (address_space d) m = with_paging (paging_free_address_space d m.heap.paging) m
release (frame d) m =
    with_paging (record (m.heap.paging) { pmm = pmm_free_frame d m.heap.paging.pmm }) m
release (kernel_stack p) m = record m { heap = kfree p m.heap }
release (task_struct id) m = record m { heap = kfree (m.struct_at id) m.heap }

unfoldable pub release_all : List Release → Machine → Machine
unfolding release
release_all [] m = m
release_all (x ∷ xs) m = release_all xs (release x m)

unfoldable pub store_status : Registers → ℕ → Machine → Option Paging → Result
store_status r pid m none = faults
store_status r pid m (some p) = returns (record r { eax = pid }) (with_paging p m)

unfoldable pub after_wait : Registers → Waited → Machine → Result
unfolding store_status release_all
after_wait r (sleeps s) m = waits (with_tasks s m)
after_wait r no_children m = returns (record r { eax = minus_one }) m
after_wait r dangling m = faults
after_wait r (reaped pid code rel s) m =
    let m' = release_all rel (with_tasks s m) in
    store_status r pid m'
      (if r.ebx == 0 then some m'.heap.paging else write_u32 r.ebx code (some m'.heap.paging))

unfoldable pub sys_wait : Registers → Machine → Result
unfolding after_wait
sys_wait r m = after_wait r (task_wait_any m.tasks) m

abbrev pub user_fb_vaddr : ℕ
user_fb_vaddr = 0x50000000

-- The loop over the framebuffer's pages; its `break` leaves the loop alone.
unfoldable pub map_user_pages : ℕ → ℕ → ℕ → ℕ → Bool × Paging → Bool × Paging
map_user_pages zero i fb_phys dir r = r
map_user_pages (suc n) i fb_phys dir (false, s) = (false, s)
map_user_pages (suc n) i fb_phys dir (true, s) = map_user_pages n (i + 1) fb_phys dir (
    paging_map_user_page dir ((fb_phys + i * 4096) % 2 ^ 32) ((user_fb_vaddr + i * 4096) % 2 ^ 32)
      (page_rw + page_user) s)

-- What `gui_init` has set is the console's too.
unfoldable pub with_gui : Gui → Paging → Machine → Machine
with_gui g p m = if m.gui.g_gui_ready then m else record (with_paging p m) {
  gui = g;
  vga = record (m.vga) { gui_active = g.g_gui_ready; screen = g.screen };
}

unfoldable pub fb_info : Registers → Machine → Option Paging → Result
fb_info r m none = faults
fb_info r m (some p) =
    returns (record r { eax = 0 })
      (record (with_paging p m) { mouse = mouse_init (pos gui_width) (pos gui_height) m.mouse })

unfoldable pub map_fb : Registers → Machine → Result
unfolding map_user_pages fb_info
map_fb r m =
    let fb_bytes = m.gui.g_fb_pitch * gui_height % 2 ^ 32 in
    let mapped =
      map_user_pages ((fb_bytes + 4095) % 2 ^ 32 / 4096) 0 m.gui.g_fb_phys (self_dir m)
        (true, m.heap.paging) in
    fb_info r m (
      write_u32 (r.ebx + 12) m.gui.g_fb_pitch (
        write_u32 (r.ebx + 8) gui_height
          (write_u32 (r.ebx + 4) gui_width (write_u32 r.ebx user_fb_vaddr (some mapped.1)))))

unfoldable pub after_gui : Registers → Machine → Bool × Gui × Paging → Result
unfolding with_gui map_fb
after_gui r m (ok, g, p) =
    if ok
    then map_fb r (with_gui g p m)
    else returns (record r { eax = minus_one }) (with_paging p m)

unfoldable pub sys_map_fb : Devices → Registers → Machine → Result
unfolding after_gui
sys_map_fb d r m = after_gui r m (gui_init d m.gui m.heap.paging)

-- An `int` as its 32 bits.
unfoldable pub int_bits : ℤ → ℕ
int_bits (pos n) = n % 2 ^ 32
int_bits (negsuc n) = 2 ^ 32 - 1 - n % 2 ^ 32

unfoldable pub mouse_info : Registers → Machine → Option Paging → Result
mouse_info r m none = faults
mouse_info r m (some p) = returns (record r { eax = 0 }) (with_paging p m)

unfoldable pub sys_mouse_state : Registers → Machine → Result
unfolding mouse_info int_bits
sys_mouse_state r m = mouse_info r m (
    write_u32 (r.ebx + 8) m.mouse.mouse_buttons (
      write_u32 (r.ebx + 4) (int_bits m.mouse.mouse_y)
        (write_u32 r.ebx (int_bits m.mouse.mouse_x) (some m.heap.paging))))
