-- ===== src/Lib.antt =====
-- Dragoon, a microkernel for ARM64 on several cores, with its devices, its desktop and its games.
--
-- The kernel keeps its state in static variables. Tasks (kernel/task.c) sit in a table of 32; each has a
-- stack from the page allocator (kernel/mm.c) and an address space (kernel/vm.c). The scheduler
-- (kernel/sched.c) picks the next ready task for the CPU that calls it. A task blocks in a wait queue
-- (kernel/waitqueue.c), on which futexes (kernel/futex.c) and sleep (kernel/sleep.c) are built, or at an
-- IPC endpoint (kernel/ipc.c). The timer's interrupt (kernel/timer.c) counts ticks and ends waits whose
-- time has run out. Capabilities (kernel/cap.c) live in a pool of their own. System calls
-- (kernel/syscall.c) are the entry to these from tasks.
--
-- Beside this core stand the devices: the virtio transport (kernel/virtio.c) shares queues of buffers with the
-- keyboard and the tablet (kernel/virtio_input.c), whose events become keys and a pointer. The window manager
-- (kernel/wm.c) turns clicks into focus, moves and closings of its stack of windows; windows and games draw
-- through kernel/gpu.c. linux/compat.c offers Linux's calls to drivers, over the page allocator and the
-- interrupts (kernel/irq.c).
--
-- The files and what they model:
--   Prelude, Bits     shared names, lemmas on lists, loops and counts, and the bits of a word
--   Mm, Mm/*          kernel/mm.c up to `mm_get_free_pages`: `Mm` is the bitmap, the counters and the memory
--   Cap, Cap/*        kernel/cap.c: `CapPool` is `cap_pool` and `cap_pool_used`
--   Vm, Vm/*          kernel/vm.c: `Vm` adds `asid_bitmap` to the allocator
--   Kernel            the state of the other parts: `tasks`, `num_tasks`, `percpu`, `wq_pool`, the heads of
--                     the wait queues, `ftable`, `endpoints`, `tick_count`
--   Task, Task/*      kernel/task.c
--   Sched, Sched/*    kernel/sched.c
--   WaitQueue, WaitQueue/*   kernel/waitqueue.c; WaitQueue/Readied says without the operations what they
--                     do to a task
--   Ipc, Ipc/*        kernel/ipc.c
--   Futex, Futex/*    kernel/futex.c and kernel/sleep.c
--   Timer             kernel/timer.c, the interrupt handler
--   PageTables, PageTables/*  kernel/mm.c, the second half: `mm_create_page_tables` and `mm_map_page`; PageTables/Walk is
--                     the walk that the hardware makes of the tables (four levels of 512 entries)
--   Input, Input/*    kernel/input.c, the decoder of the serial line
--   Printf, Printf/*  kernel/printf.c, as the bytes that are sent
--   Snake, Snake/*    games/snake.c without its drawing
--   Gui, Gui/*        kernel/gui.c without its drawing, over Wm and the games; Gui/Console is its terminal
--   Fb, Fb/*          kernel/fb.c: `Fb` is the buffer, the words for the device and the state of fw_cfg
--   Bytewise, Bytewise/*   kernel/mm.c, its end: `memcpy`, `memset` and `memcmp` on a memory of bytes
--   Breakout, Breakout/*   games/breakout.c without its drawing
--   Raycaster, Raycaster/* games/raycaster.c, the walk of the player
--   Wm, Wm/*          kernel/wm.c without its drawing: `Wm` is `windows`, `z_order`, `z_count`,
--                     `prev_buttons` and the page allocator; its `int`s are integers that do not overflow
--   Virtio, Virtio/*  kernel/virtio.c: `Virtio` is `devices`, the page allocator and the register writes so
--                     far; what the device answers to a read is a function of these
--   Virtio/Input, Virtio/Input/*   kernel/virtio_input.c
--   Tetris, Tetris/*  games/tetris.c without its drawing
--   Gpu, Gpu/*        kernel/gpu.c: `Gpu` is the three buffers, the target's size and all pixels
--   Irq               kernel/irq.c
--   Compat, Compat/*  linux/compat.c
--   Syscall           kernel/syscall.c
--   Sample, */Tests   a small kernel and the operations tried on it
-- An operation has the name of its C function, takes the state and returns it with the function's result;
-- -1 for an index or a pointer that is null is `none`, and an `int` that a caller gives or gets is an
-- integer. An array is a function from indices.
--
-- What runs under a lock is one step. A call that gives up the CPU in its middle, such as `wq_wait` or
-- `ipc_recv`, takes as an argument what all other tasks and CPUs do until it runs again; so do the futex
-- operations for the moments in which they hold no lock. The theorems about them say what is assumed of it.
-- `schedule` ends with the arguments of the assembly routine `context_switch`.
--
-- The loop over a printf format has its length as fuel. Loops of the source with a fixed number of rounds
-- are loops over a range. The loops along the links of a queue have the 64 entries of the pool as fuel,
-- which is enough as a line has no entry twice (`line-short` in WaitQueue/Invariant); that of `futex_wake`
-- has the tasks asked for, as each round counts one. The loop that drains
-- a device's queue has the number of new elements as fuel, that over the rows of tetris twice the rows
-- (one round for a row and one for each that is cleared), a hard drop 32 (a piece in play falls 20 rows at
-- most), and the search for input devices one more than there are devices. Words wrap around where the
-- source computes with `u64`, and the sums of `int`s in kernel/gpu.c and of the pointer's coordinates keep
-- 32 bits.
--
-- Not modelled: the system registers that switch the MMU on; the drawing of kernel/wm.c, kernel/gui.c and the
-- games, with the font; the serial port, the boot code and the assembly; the locks themselves
-- and weak memory; and linux/server.c, which starts drivers.
pub mod Prelude
pub mod Bits
pub mod Bytewise
pub mod Raycaster
pub mod Breakout
pub mod Mm
pub mod Cap
pub mod Vm
pub mod Kernel
pub mod Sample
pub mod Task
pub mod Sched
pub mod WaitQueue
pub mod Ipc
pub mod Futex
pub mod Timer
pub mod Syscall
pub mod Input
pub mod Snake
pub mod Printf
pub mod Wm
pub mod Virtio
pub mod Tetris
pub mod Gpu
pub mod Fb
pub mod Gui
pub mod Irq
pub mod Compat
pub mod PageTables
