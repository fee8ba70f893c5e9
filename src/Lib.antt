-- ===== src/Lib.antt =====
-- frostbite: the kernel of a small operating system for one ARMv8 core.
--
-- The program's parts and their modules (paths are from the repository's root):
--
-- * lib/lib.c, lib/lib.h: the intrusive linked lists through `struct Node`, on which the scheduler
--   keeps its processes. Queue models them over an explicit heap of nodes, operation by operation,
--   under the C names; a NULL dereference, or a loop that outruns its fuel, is `none`. The modules
--   Queue/Append, Queue/Remove, Queue/Event and Queue/Search show that the operations implement
--   those on a sequence of nodes: `++`, `erase`, `erase_evt`, `has` and `first_evt`.
-- * memory/memory.c, memory/memory.h: the allocator of 2 MB pages and the page tables. Memory models
--   kalloc, kfree, free_region, init_mem, the table walks, map_page, free_page and free_uvm over a
--   memory of 8-byte words, and Memory/Bytes memcpy and memset on it. Addresses are 64-bit and wrap
--   around. A failed ASSERT sets `halted`. setup_uvm and copy_uvm are in Process/Load.
-- * fs/file.c, fs/file.h: Fat has the FAT16 image as a function from addresses to bytes, and on it the
--   parameter block, the table of clusters, the root directory, split_path, search_file and
--   read_raw_data; Fat/Chain says what a chain of clusters holds. Files has the in-core inodes and
--   the global file table with their reference counts, close_file, and what a dead process gives
--   back; Files/Open has open_file, read_file and the other calls that need the image.
-- * process/process.c, process/process.h: Process has the process table and `struct ProcessControl`
--   as the record `Kernel`, and below it a module per group of functions: Process/Table
--   (get_process, find_job and the other searches), Process/Kill (kill), Process/Wake (wake_up),
--   Process/Exit (exit, switch_parent), Process/Schedule (schedule, trigger_scheduler, sleep),
--   Process/Wait (wait), Process/Jobs (move_to_fore, move_to_back), Process/Load
--   (alloc_new_process), Process/Fork (fork, init_process), Process/Arguments (the arguments of
--   exec, get_proc_data).
-- * process/signal.c, process/signal.h: Process/Signal has the default handlers, the delivery of
--   pending signals and the registration of handlers. exit, kill and signal.c call each other as in
--   C.
-- * lib/lib.c again, `struct Map`: Env has the environment of a process, hash, at, insert, erase and
--   keys. A string is the list of its bytes; the pointer that `at` returns is the number of an entry.
-- * irq/syscall.c, irq/syscall.h: Syscall has the calls on processes, signals and jobs, which are
--   clients of the Process modules, and the way back from a signal handler; below it are
--   Syscall/Open (files, fork, the keyboard), Syscall/Environment (the environment), Syscall/Sleep
--   (sys_sleep) and Syscall/Dispatch (the table of calls).
-- * irq/handler.c, irq/handler.h: Irq has the entry for exceptions and interrupts and the timer, and
--   Irq/Tick a timer interrupt as a whole. What a device register reads is an argument.
-- * io/keyboard.c, io/keyboard.h, io/uart.c: Keyboard has the ring buffer of key strokes,
--   Keyboard/Ring its meaning as a queue of characters, and Keyboard/Capture the way of a key from the
--   device to the foreground process.
-- * io/print.c, user/lib/flib.c: Text has the conversions of numbers to text and back, and the
--   functions on characters and strings; Text/Sort has sort. A buffer that a loop fills is a function
--   of the index.
-- * io/print.c and user/lib/print.c again: Text/Format has printk and printf, with the batches of the
--   latter, the write call and write_string; Text/Format/Meaning says, with the numerals of
--   Text/Numeral, what a format means. Text/Str has C strings, memset, memcpy and memmove on
--   characters in memory.
-- * user/shell/shell.c, user/shell/shell.h: Shell has the line editor read_cmd, one key at a time, and
--   Shell/Line the line with a cursor that it edits; Shell/Command has get_cmd_info, which takes a
--   command line apart.
-- * user/shell/main.c, user/shell/shell.h: Shell/Start has the checks of the main loop on a line, up to the name and the
--   arguments of the program that is opened and run for it.
-- * user/lib/flib.c again: Text/Input has read_input, key by key, and Text/Scan scanf on it.
-- * user/export/main.c, user/kill/main.c, user/jobctl/main.c, user/login/login.c, user/login/main.c:
--   Programs has a module for each of these programs. What the kernel answers to their calls is an argument.
--
-- A process is named by its slot in the table, and the queues of `Kernel` are sequences of slots:
-- that `push_back`, `remove` and `remove_evt` act on sequences is what Queue shows for the lists in
-- memory, for nodes that are on one list at a time. Process/Invariant states the agreement of the
-- queues with the states of the processes, from which this follows.
--
-- Loops over the process table are `for_slots` and `find_slot` of Base/Loop, with the number of
-- slots as their fuel. `wake_loop` has the length of the wait list as fuel, since each round takes a
-- process off it. `remove_loop`, `contains_loop` and `evt_loop` take any fuel above the length of the
-- list, which the theorems give them. `pick`, the loop of `schedule`, runs on fuel and returns `none`
-- where it runs out; the theorems show for which states it returns and what.
-- `read_loop` has the size of the read and one more as fuel, since each round but the last copies a
-- byte or more, and `sleep_loop` the number of ticks and one more, since each sleep takes a tick.
-- `put_digits` has the greatest number of digits of its word as fuel, and `power_on` the exponent.
--
-- A fork gives the child the words of the user stack with the frame; the other user memory is that of
-- the pages. The label trap_return of the assembly code and the boot page table are arguments.
--
-- The loop of scanf that reads again while it gets an empty line has the number of keys and one more as
-- fuel, since each round that ends takes a key. Where no key is left, read_input and scanf wait.
--
-- The loops of login over its file have the rest of the buffer as fuel; one that leaves the buffer, which
-- C leaves undefined, is `overrun`, and a user name that does not fit its buffer ends the model too.
-- The arguments and the added extension of a command are not bounded in the model of the shell, where
-- the code writes behind its arrays.
--
-- The loops over a string in a buffer have the size of the buffer as fuel, and the loop of
-- `evaluate_env` the length of its text, since each round but the last takes a character; its first
-- result says whether it ended, and a theorem that with this fuel it does.
--
-- Not modelled: the assembly code and the switch of stacks and page tables, the set-up of devices,
-- what exec does but for its arguments, the calls of exec and get_proc_data, what the main loop of the
-- shell does with the program that it has started, and the programs that only print what the
-- kernel answers. They are input and output, or are left to further modules. The debug output of the modelled files is left out too.
pub mod Base
pub mod Env
pub mod Fat
pub mod Files
pub mod Irq
pub mod Keyboard
pub mod Memory
pub mod Process
pub mod Programs
pub mod Queue
pub mod Shell
pub mod Syscall
pub mod Text
