-- ===== src/Lib.antt =====
-- A verification library for the MakhOS kernel, an x86-64 hobby kernel in C.
--
-- The kernel boots through multiboot, sets up its tables and a physical page allocator, builds
-- heaps, address spaces and processes on it, schedules their threads, and serves system calls,
-- signals, files and sockets; a console with a line editor runs before user programs do. The
-- parts below are modelled one function of the source by one definition of the same name.
--
-- Prelude: shared names, numbers, lists, and words of bits.
--   Prelude.Bits has the digits of a word, Prelude.Mask the test `x & (1 << p)` after each
--   operation on words, Prelude.Int the results that may be negative, Prelude.Checked the accesses
--   of arrays that may fail.
-- Mm.Pmm: kernel/mm/pmm.c, the physical page allocator.
--   The file-scope variables (`bitmap`, the page counts, the fault counter) are the record
--   `Pmm`; `pmm_init`, `pmm_alloc_page`, `pmm_alloc_pages`, `pmm_free_page`, `pmm_free_pages`
--   and `pmm_reserve_region` take and return it. `Pmm.Client` has the calls as a step relation.
-- InputLine: kernel/input_line.c, and the main loop of kernel/kernel.c that calls it.
--   `input_line_t` with the clipboard is the record `Editor`, `input_history_t` the record
--   `History` of InputLine.History; `press`, `arrow_up` and `arrow_down` are the branches of
--   the loop. Every access of an array is checked, and `none` is an access out of bounds.
-- Proc.Pid: kernel/proc/pid/pid.c, the bitmap of process numbers and its rotating cursor.
--   `Pid.Live` has the calls as a relation that keeps the list of the numbers in use.
-- Proc.Signal: kernel/signal/signal.c, with the fields of `process_t` (kernel/include/proc.h)
--   that it uses as the record `Thread`. Signal.Frame has the handler's frame, its delivery (Signal.Killed: under SIGKILL) and
--   `signal_sigreturn`; `copy_to_user` and `copy_from_user` are the interface `UserMemory`,
--   which Signal.Tests fills with a memory of contexts.
-- Proc.Links: the lists of threads that are linked through a field of `process_t`; a thread is its
--   address, 0 the null pointer, and a field of all threads a map. Links.Cut takes a thread out.
-- Proc.Sched: kernel/proc/sched/sched.c. The file-scope variables and the fields of the threads are
--   the record `Sched`, on which `runq_push`, `runq_pop_highest`, `schedule`, `sched_wake` and the
--   preemption calls work; Sched.Wait has the wait queues (`wait_queue_t` is `WaitQueue`),
--   Sched.Sleep the sleep list, the tick and the sleeps. Sched.Switch holds `schedule` against the
--   abstract scheduler `Plan`, Sched.Runs has the calls as a step relation.
-- Proc.Tree: kernel/proc/table/table.c, list/list.c and tree/tree.c over one record `Procs`, the table
--   a list of 256 slots. Tree.Slots has the table, Tree.Everyone the list of all processes, which is
--   linked both ways, Tree.Families and Tree.Orphans the children of a process, and Tree.Oracle what
--   `proc_tree_check` finds. A panic is `none`.
-- Sync: kernel/futex.c, kernel/pthread/sem.c, and the mutexes, condition variables and read/write locks
--   of kernel/pthread/pthread.c, over those wait queues. A call that may sleep is cut
--   at the switch: what it does before, and what it does once the thread runs again.
-- Fs.Path: kernel/fs/path.c, one function; Fs.Path.Stack has the stack of components it implements.
-- Strings: kernel/lib/string.c, on one array of bytes; a pointer is an index into it, and `none` is
--   an access outside it. Strings.Blocks has the functions on blocks, Strings.Copy, Strings.Limits
--   and Strings.Search those on strings.
-- Tty: kernel/tty/tty.c, the line discipline; its file-scope variables are the record `Tty`, in
--   which a buffer with its length is a list. Tty.Bounds has the arrays, Tty.Lines what a reader gets.
--
-- How they interact: a page of the allocator backs every other part and is not looked into; the
-- main loop of the console calls the editor and the history; the reaping of a thread frees its
-- process number; the tree finds a parent by its number in the table; the terminal answers the
-- signals that go to its foreground group; the signal code changes the state of a thread through `sched_wake` of kernel/proc/sched/sched.c, which the
-- signal model follows in the thread's state only; futexes and semaphores are clients of the wait
-- queues, whose theorems Sync uses.
--
-- Integers: numbers are natural, and the wrap-around of the 32-bit and 64-bit fields is written
-- out where an operation may wrap. The `int` fields of the editor are never negative, save that
-- a length below 0 is an index out of the buffer and so `none`; the results of the signal code
-- are integers. The `int` counters of semaphores, mutexes and read/write locks wrap around at 2^31
-- (`inc32`, `dec32`), and the theorems say below which bound they hold; `preempt_count` and
-- `ticks_left` of a thread are integers without a bound.
--
-- Bounds and fuel: the loops of pmm.c and pid.c are recursion on the rounds left, which the
-- source bounds. The scan of `pmm_alloc_pages` has `max_page_num + 1` rounds, one more than there
-- are starts; `input_line_yank` has 256, one more than the clipboard can hold; both are proved
-- to be enough, since the results of both are stated with no condition on the fuel. A loop over
-- a string has as many rounds as the memory has bytes. A loop over a list of threads has one round
-- more than the process table has entries, no result where they do not suffice, and a theorem that
-- they suffice for a list without repetition; the walk of a path has a round for each char.
--
-- Interrupts: a function that saves and disables interrupts is one step. The sequences of calls
-- of several threads are the step relations `Pmm.Client.Reach`, `Pid.Live.Run`,
-- `Signal.Calls.Reach`, `Sched.Runs.Run`, `Sem.Uses.Uses`,
-- `Mutex.Owners.Uses` and `RwLock.Holders.Uses`.
--
-- Not modelled: what is printed or drawn; assembly, drivers and descriptor tables, which are
-- hardware; the heap, address spaces, creation and exit of threads, the rest of pthread.c, file systems,
-- network, shell and system call dispatch; the tests and the fuzzer; user programs and
-- the headers of the C library under user/, which are of other projects.
pub mod Prelude
pub mod Mm
pub mod InputLine
pub mod Proc
pub mod Strings
pub mod Tty
pub mod Fs
pub mod Sync
