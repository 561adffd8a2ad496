-- ===== src/Syscall/Handler.antt =====
-- kernel/syscall.c: the dispatch.
use kronked_os.Prelude.{ℕ, ◌+◌, ◌-◌, ◌^◌, Option, none, some, ◌==◌, ltb, if◌then◌else◌}
use kronked_os.Prelude.Text.{text}
use kronked_os.Task.{Tasks}
use kronked_os.Keyboard.{Keyboard, keyboard_has_char, keyboard_getchar}
use kronked_os.Fat16.Files.{Bytes}
use kronked_os.Gui.{Devices}
use kronked_os.Machine.{Machine}
use kronked_os.Syscall.{
  Registers, Result, returns, waits, minus_one, log, Outside, sys_write, sys_exit, sys_fork,
  sys_wait, sys_map_fb, sys_mouse_state,
}
use kronked_os.Syscall.Exec.{sys_exec}

-- `(unsigned int)` of a `char`.
unfoldable pub char_bits : ℕ → ℕ
char_bits c = if ltb c 128 then c else c + (2 ^ 32 - 256)

unfoldable pub got_char : Registers → Machine → Option (ℕ × Tasks × Keyboard) → Result
unfolding char_bits
got_char r m none = waits m
got_char r m (some (c, tasks, keyboard)) =
    returns (record r { eax = char_bits c }) (record m { tasks = tasks; keyboard = keyboard })

unfoldable pub sys_getchar_nb : Registers → Machine → Result
unfolding got_char
sys_getchar_nb r m =
    if keyboard_has_char m.tasks m.keyboard
    then got_char r m (keyboard_getchar m.tasks m.keyboard)
    else returns (record r { eax = minus_one }) m

-- The parameters of the calls: the devices, what stands outside of C, the longest string, and for
-- exec the rounds of a read and what its buffer holds before.
pub record Context : Type 0 where
  pub devices : Devices
  pub outside : Outside
  pub limit : ℕ
  pub rounds : ℕ
  pub old : Bytes

unfoldable pub syscall_handler : Context → Registers → Machine → Result
unfolding sys_getchar_nb
syscall_handler x r m =
    if r.eax == 1
    then sys_write x.limit r m
    else if r.eax == 0
    then sys_exit r m
    else if r.eax == 2
    then sys_fork x.outside r m
    else if r.eax == 3
    then sys_exec x.limit x.rounds x.old r m
    else if r.eax == 4
    then sys_wait r m
    else if r.eax == 5
    then sys_map_fb x.devices r m
    else if r.eax == 6
    then sys_mouse_state r m
    else if r.eax == 7
    then sys_getchar_nb r m
    else returns (record r { eax = minus_one })
        (log (text "[serial] syscall: unknown syscall number\n") m)
