-- ===== src/Lib.antt =====
-- A verification library for lxp, a Linux personality for microcontrollers without a memory unit
-- (C, under src/ and include/lxp/). A coordinator task runs the system calls of guest programs and
-- drives host providers; the files here model its data structures and protocols and prove them.
--
-- Common: tests, lists, byte memory, integers, bit sets and results that all parts share. A fallible
--   call answers `ok n` or `err e`, where the source returns `n` or `-e`; Errno has the numbers.
-- Gate (src/lxp_async_gate.c, include/lxp/lxp_async_gate.h): the completion gate between the
--   coordinator and a provider's worker. The functions are state passing on the record `Gate`;
--   `Gate.Machine` cuts them into single accesses to the gate and interleaves the two threads. The
--   retry loop of `lxp_async_gate_cancel` has two rounds, which are enough.
-- Ring (src/fs/lxp_ring.h): the byte ring of pipes and ptys, over a list of cells.
-- Proc (src/proc/lxp_proc.h, src/proc/lxp_process.c): the part of a task record that signals,
--   coordinator intents and waits use.
-- Signal (src/signal/lxp_signal_policy.c, src/lxp_signal.c): pending sets and dispositions, and in
--   `Signal.Deliver` the delivery over a trap frame and the return from the handler. A 64-bit set is
--   the function from its bit positions to its bits.
-- Pipe (src/fs/lxp_pipe.c): the pool of pipes over Ring, with the file operations, which park a task
--   (Proc) and raise SIGPIPE (Signal). `Pipe.Queue` is the abstract bounded queue.
-- Fd (src/fs/lxp_fd.c, src/proc/lxp_process.c): descriptor tables over a pool of open-file
--   descriptions, and in `Fd.Share` how a child task copies or shares a table. `Fd.Count` counts the
--   descriptors that name a description.
-- Resource and Task (src/proc/lxp_process.c): the pools of reference-counted objects of a task, and
--   in `Task` and `Task.Child` how clone shares or copies them. `Task.Balance` says that each object
--   has as many references as tasks hold it.
-- Region (src/run/lxp_region.c): the references to program regions, with their generations and leases.
-- Tty and Pty (src/fs/lxp_tty.c, src/pty/lxp_pty.c): the settings of a terminal, and the ptys with
--   their line discipline over Ring and the waits of Proc. `Pty.Queue` reads a ring as a queue of
--   bytes. `pty_input` and `pty_output` are recursions on the bytes of the buffer.
-- Futex (src/run/lxp_futex.c): the waits and wakes on an address, over the slots of tasks (Proc).
-- Arena (src/lxp_arena.c): the first-fit allocator over block headers in memory. `Arena.Tiles` reads
--   the headers as a list of blocks, on which `Arena.Alloc`, `Arena.Free` and `Arena.Realloc` say what
--   the calls do. A header and the bytes of a block stand in two maps over one range of addresses, so
--   that a store to the one is no store to the other; `Arena.Apart` says that no header is written
--   into the payload of an allocated block. Walks have the region's size as fuel, which is enough since each block takes 32
--   bytes or more.
-- Path (src/fs/lxp_path.c): the prefix and child tests on paths, and the hash; in `Path.Normal` the
--   normalisation of paths, whose fuel is the length of the path, and enough since each round takes a
--   byte or more. `Path.Canonical` is the stack of components that it stands for.
-- Vfs and Tmpfs (src/fs/lxp_vfs.c, src/fs/lxp_tmpfs.c): the writable file system, a table of nodes
--   whose bytes stand in the memory of an Arena. `Tmpfs.Files` has the file operations, and
--   `Tmpfs.Rename` the renaming of a node with what lies below it.
-- Guest (src/lxp_guest.c): the addresses that a task may use.
-- Errno.Translate (src/lxp_errno.c): the provider codes against the error numbers.
-- Eventfd (src/fs/lxp_eventfd.c): the pool of event counters.
-- Script (src/proc/lxp_script.c): the parser of a script's first line.
--
-- Parameters: the capacity of a ring, the number of pipes, ptys and nodes, the pool of the
-- writable file system and the depth of nested handlers are arguments, so that the results hold for
-- every configuration; what guest memory a task may read, and what the host's clock answers, are
-- arguments too.
--
-- Not modelled: the ports under ports/ and the tests; symbolic links, the listing of directories and
-- the records of a file's status, `lxp_eventfd_open`, the views of guest memory; the loader, the vfork
-- snapshots, the run loop, the other file systems, devices, sockets and the 9P client; null pointers
-- that a caller may not pass; the floating-point context of LXP_ENABLE_FPU_CONTEXT.
pub mod Common
pub mod Futex
pub mod Gate
pub mod Region
pub mod Resource
pub mod Ring
pub mod Proc
pub mod Errno
pub mod Signal
pub mod Task
pub mod Tty
pub mod Vfs
pub mod Tmpfs
pub mod Pty
pub mod Pipe
pub mod Arena
pub mod Eventfd
pub mod Script
pub mod Guest
pub mod Path
pub mod Fd
