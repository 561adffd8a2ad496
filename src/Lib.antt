-- ===== src/Lib.antt =====
-- A model of the kernel of the KRONK operating system (kernel/*.c, 32-bit x86, one processor), with
-- the theorems on it.
--
-- The kernel boots with a multiboot memory map, keeps the physical frames in a bitmap with reference
-- counts (kernel/pmm.c), maps memory through page directories and tables that lie in such frames
-- (kernel/paging.c), hands out the kernel heap from frames mapped behind its end (kernel/heap.c), and
-- runs tasks in a circular list, each with a page directory (kernel/task.c). fork shares a task's
-- pages copy-on-write; the page fault handler copies them. The keyboard interrupt fills a ring buffer
-- (kernel/keyboard.c), from which a task reads, unless its input is redirected to the queue in its
-- task struct. Files lie on a FAT16 volume (kernel/fat16.c) behind the ATA driver (kernel/ata.c), and
-- the KRONK interpreter (kernel/kronk.c) runs programs from it. Longer sections are guarded by a
-- sleeping mutex (kernel/mutex.c) on top of the spinlock (kernel/spinlock.c).
--
-- User programs are loaded from ELF files (kernel/elf.c) and enter the kernel through interrupt 0x80
-- (kernel/syscall.c) or an exception; both, and the interrupts of the timer, the keyboard and the
-- mouse, go through the descriptor table (kernel/idt.c). Text goes to the card's text memory, to the
-- framebuffer, or to the buffer of a task (kernel/vga.c, kernel/fb.c); the editor (kernel/editor.c) and
-- the game (kernel/snake.c) are built on it. The desktop (kernel/desktop.c) runs each of its windows
-- as a task with redirected input and output.
--
-- Which file models what:
--   Pmm, Pmm/*            kernel/pmm.c: Pmm/Bitmap the bitmap, Pmm/Init the walk over the memory map
--   Paging, Paging/*      kernel/paging.c: Paging/Cow the fault handler, Paging/Space fork and teardown
--   Heap, Heap/*          kernel/heap.c
--   Task, Task/*          kernel/task.c: Task/Create, Task/Sched, Task/Exit (exit and wait), Task/Input
--                         and Task/Redirect (a task's redirected input and output)
--   Keyboard, Keyboard/*  kernel/keyboard.c
--   Mutex, Mutex/*        kernel/spinlock.c, kernel/mutex.c; Mutex/Steps has the tasks that use one mutex
--   Ata, Fat16, Fat16/*   kernel/ata.c, kernel/fat16.c: the table in Fat16, the directory in Fat16/Dir,
--                         reading in Fat16/Files, writing and deleting in Fat16/Store,
--                         theorems on the table in Fat16/Table
--   Kronk, Kronk/*        kernel/kronk.c: Kronk/Expr the parser, Kronk/Exec the statements, Kronk/Run
--                         loading and the run
--   Elf, Elf/*            kernel/elf.c
--   Machine               the state of the parts together, and user memory as the kernel reaches it
--   Syscall, Syscall/*    kernel/syscall.c: exec in Syscall/Exec, the dispatch in Syscall/Handler
--   Idt, Idt/*            kernel/idt.c: the table in Idt, the handlers in Idt/Handlers;
--                         Idt/Controllers has the two interrupt controllers, as far as their
--                         initialisation is concerned
--   Timer, Serial         kernel/timer.c, kernel/serial.c
--   Vga, Vga/*            kernel/vga.c: a screen of cells in Vga, the framebuffer's in Vga/Screen, the
--                         outputs in Vga/Put
--   Fb, Fb/*, Gui         kernel/fb.c with the font; kernel/gui.c, kernel/vbe.c and kernel/pci.c
--   Mouse, Mouse/*        kernel/mouse.c
--   Editor, Editor/*      kernel/editor.c; Digits has its printing of numbers, which kernel/shell.c
--                         and kernel/snake.c share
--   Snake, Snake/*        kernel/snake.c
--   Desktop, Desktop/*    kernel/desktop.c: windows and their order in Desktop, the mouse and the
--                         keyboard in Desktop/Click, drawing in Desktop/Draw, the loop in
--                         Desktop/Run
--   Shell, Shell/*        kernel/shell.c and kernel/banner.c: the commands in Shell, run in Shell/Run,
--                         the dispatch and the loop in Shell/Loop
--   Gdt, Cpuinfo          kernel/gdt.c, kernel/cpuinfo.c
--   Samples               small states for the tests that need several parts
--   Ring                  lemmas on ring buffers, for the keyboard's and the tasks' queues
--   Prelude, Prelude/*    shared names, Boolean tests, lists and bits
-- A file named for an operation's outcome or invariant (Pmm/Alloc, Heap/Laws, Task/Valid, ...) holds
-- theorems; the files named Tests apply them at concrete states.
--
-- The state of a C file is a record of its static variables, and a C function is the definition of
-- the same name, from the arguments and that state to the result and the new state. Functions of
-- another file are called on that file's state: paging.c's record holds pmm.c's, heap.c's holds
-- paging.c's. A task pointer is the task's id, and the circular list is read from the running task on.
-- Addresses and counters are natural numbers, with the wrap-around of the C type written out where an
-- operation can reach it. A spinlock that encloses an operation makes it one step of the model. A loop
-- over an array is recursion on the number of rounds left; the walk over the memory map takes the
-- map's length in bytes as its number of rounds, since every entry is at least four bytes long. A wait
-- in a loop (`hlt`, `task_block`) is a result of its own, with the state in which the wait goes on.
-- An `int` is an integer without a bound where the source keeps it far from 2^31: the coordinates and
-- sizes of the desktop's windows. In kernel/fb.c, which any caller may give any `int`, sums of
-- coordinates wrap as two's complement; next_task_id is kept by its 32 bits. What an ioport is sent is a list of ports and bytes; what a device answers, the stubs
-- of the assembly and the contents of fresh memory are parameters. Keys that a program reads are a
-- list. The messages of the memory management on the serial port are left out, those of the system
-- calls, the exceptions and the timer are not.
--
-- A FAT16 chain is freed in at most 2^16 rounds, one for each cluster number; a file's read takes
-- the number of rounds as an argument, and so do the strings that a system call reads and the
-- tries of the game for a place of the food; the KRONK parser has fuel 512 for a line of 99
-- characters, and a run is bounded by the source's own limit of 200000 steps; the desktop reads at
-- most 256 keys in a turn of its wait, more than its buffer holds, and its rounds are a list, with what
-- other tasks do to the kernel and to the desktop's variables behind each turn; the
-- editor's loop takes one round for each key at most. The loops that print a number, scroll a
-- screen or map pages run as often as in the source.
--
-- The kernel reaches physical memory at its own addresses. The source maps only the first 64 MiB one to
-- one, and the heap's pages, from 4 MiB on, elsewhere: page tables and directories are taken to lie in
-- frames below 64 MiB whose addresses are not the heap's. The heap is taken to end below 64 MiB, where
-- its pages can be mapped; behind that the source faults. A task's parent is an id: a pointer to a
-- parent that has been freed, which the source keeps, does not occur.
--
-- Not modelled: assembly and what the processor does with the tables (CR0, invlpg, context switch),
-- the waits for a device's status, the order of the start-up (kernel/kernel.c), the shell's test of
-- the mutex, and the userland programs, which only call the kernel.
pub mod Ata
pub mod Cpuinfo
pub mod Desktop
pub mod Digits
pub mod Editor
pub mod Elf
pub mod Fat16
pub mod Fb
pub mod Gdt
pub mod Gui
pub mod Heap
pub mod Idt
pub mod Keyboard
pub mod Kronk
pub mod Machine
pub mod Mouse
pub mod Mutex
pub mod Paging
pub mod Pmm
pub mod Prelude
pub mod Ring
pub mod Samples
pub mod Serial
pub mod Shell
pub mod Snake
pub mod Syscall
pub mod Task
pub mod Timer
pub mod Vga
