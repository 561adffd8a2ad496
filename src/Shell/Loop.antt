-- ===== src/Shell/Loop.antt =====
-- kernel/shell.c and kernel/banner.c: the dispatch, and the rounds of `shell_run` with their start.
use kronked_os.Prelude.{
  ℕ, ◌*◌, ◌/◌, ◌%◌, ◌^◌, Option, none, some, List, [], ◌∷◌, ◌==◌, if◌then◌else◌, length,
}
use kronked_os.Prelude.Text.{text}
use kronked_os.Task.{Tasks}
use kronked_os.Pmm.{pmm_free_frame_count, pmm_detected_ram_kib}
use kronked_os.Vga.{Vga}
use kronked_os.Editor.{str_eq, read_line, c_string}
use kronked_os.Machine.{Machine, print}
use kronked_os.Syscall.{log}
use kronked_os.Cpuinfo.{Cpuid, cpu_get_vendor, cpu_get_brand}
use kronked_os.Shell.{
  split_command, skip_blanks, print_dec_vga, print_three, cmd_help, cmd_ls, cmd_cat, cmd_rm,
  cmd_meminfo, cmd_uptime, cmd_clear, Done, prompts, starts, editor, snake, desktop, mutex_test,
  kronk, ShellContext,
}
use kronked_os.Shell.Run.{cmd_run}

unfoldable pub dispatch_to : ShellContext → List ℕ → List ℕ → Machine → Done
unfolding cmd_meminfo cmd_uptime cmd_clear cmd_cat cmd_rm cmd_run print_three
dispatch_to x cmd arg m =
    if str_eq cmd (text "help")
    then prompts (cmd_help m)
    else if str_eq cmd (text "ls")
    then prompts (cmd_ls m)
    else if str_eq cmd (text "cat")
    then cmd_cat x arg m
    else if str_eq cmd (text "rm")
    then prompts (cmd_rm arg m)
    else if str_eq cmd (text "edit")
    then (if length arg == 0
        then prompts (print (text "usage: edit <file>\n") m)
        else starts editor arg m)
    else if str_eq cmd (text "run")
    then cmd_run x arg m
    else if str_eq cmd (text "echo")
    then prompts (print (text "\n") (print arg m))
    else if str_eq cmd (text "clear")
    then prompts (cmd_clear m)
    else if str_eq cmd (text "snake")
    then starts snake [] m
    else if str_eq cmd (text "desktop")
    then starts desktop [] m
    else if str_eq cmd (text "mutextest")
    then starts mutex_test [] m
    else if str_eq cmd (text "kronk")
    then starts kronk arg m
    else if str_eq cmd (text "meminfo")
    then prompts (cmd_meminfo m)
    else if str_eq cmd (text "uptime")
    then prompts (cmd_uptime m)
    else prompts (print_three (text "Unknown command: ") cmd (text "  (try 'help')\n") m)

unfoldable pub dispatch : ShellContext → List ℕ → Machine → Done
unfolding split_command dispatch_to
dispatch x line m =
    if length line == 0
    then prompts m
    else dispatch_to x (split_command line).0 (split_command line).1 m

unfoldable pub dispatch_read :
    ShellContext → Option (List ℕ × List ℕ × (Tasks × Vga)) → Machine → Option (List ℕ × Done)
unfolding dispatch
dispatch_read x none m = none
dispatch_read x (some (line, keys, (s, v))) m =
    some (keys, dispatch x line (record m { tasks = s; vga = v }))

-- A round of the loop of `shell_run`, on the keys that are typed; `none` waits for more of them.
unfoldable pub shell_round : ShellContext → List ℕ → Machine → Option (List ℕ × Done)
unfolding dispatch_read
shell_round x keys m =
    let prompted = print (text "kronk> ") m in
    dispatch_read x (read_line 128 keys (prompted.tasks, prompted.vga)) prompted

unfoldable pub banner_lines : List (List ℕ)
banner_lines =
    text " _  _____  ___  _  _ _  _____ ___       ___  ___ "
    ∷ text "| |/ / _ \\/ _ \\| \\| | |/ / __|   \\ ___ / _ \\/ __|"
    ∷ text "| ' <|   / (_) | .` | ' <| _|| |) |___| (_) \\__ \\"
    ∷ text "|_|\\_\\_|_\\\\___/|_|\\_|_|\\_\\___|___/     \\___/|___/"
    ∷ []

unfoldable pub print_lines : List (List ℕ) → Machine → Machine
print_lines [] m = m
print_lines (s ∷ ss) m = print_lines ss (print (text "\n") (print s m))

-- Leading spaces of the brand are left out.
unfoldable pub cpu_name : List ℕ → Option (List ℕ) → List ℕ
cpu_name vendor none = vendor
cpu_name vendor (some brand) = skip_blanks (c_string brand)

unfoldable pub banner_print : Cpuid → Machine → Machine
unfolding print_lines cpu_name print_dec_vga
banner_print cpuid m =
    let s = m.heap.paging.pmm in
    let vendor = c_string (cpu_get_vendor cpuid) in
    let titled = print (text "\n") (print_lines banner_lines m) in
    let cpu =
      print (text "\n")
        (print (cpu_name vendor (cpu_get_brand cpuid)) (print (text "  CPU: ") titled)) in
    let ram = print (text " KiB currently free)\n") (
      print_dec_vga (pmm_free_frame_count s * 4 % 2 ^ 32) (
        print (text " MiB detected (")
          (print_dec_vga (pmm_detected_ram_kib s / 1024) (print (text "  RAM:  ") cpu)))) in
    print (text "\n\n") (print vendor (print (text "  Vendor ID: ") ram))

-- The start of `shell_run`.
unfoldable pub shell_start : Cpuid → Machine → Machine
unfolding banner_print
shell_start cpuid m =
    log (text "[serial] shell: ready... kronk me.\n")
      (print (text "Type 'help' for a list of commands.\n\n") (banner_print cpuid m))
