-- ===== src/Lib.antt =====
-- Models of two C programs of this repository: the routines of Asg01/assignment1.c, and the kernel
-- of the teaching system in Asg02/xv6-2, with the course's additions to it (`exit2`, `wait2`,
-- `freemem`).
--
-- Parts and files (a source file named without a folder is in Asg02/xv6-2):
-- - Asg01/Sort, Asg01/Words, Asg01/Convert, Asg01/Chain: `bubble_sort`; `byte_sort`, `nibble_sort`;
--   `convert` and its three helpers; `str_to_list` (Asg01/assignment1.c). `convert` yields the
--   bytes that it prints.
-- - Xv6/Log: the redo log of log.c. Log/Disk has the disk under the buffer cache, Log/Commit and
--   Log/Crash what a power cut leaves, Log/Reserve the space that `begin_op` grants.
-- - Xv6/Proc: proc.c and proc.h. Proc/Table has the process table and `wakeup1`, Proc/Create
--   `allocproc` and `fork`, Proc/Exit `exit`, `exit2`, `wait`, `wait2`, Proc/Sched `scheduler`,
--   `sched`, `yield`, `sleep`, `wakeup`, `kill`, `growproc`. Proc/Create uses `safestrcpy` of
--   Xv6/Str.
-- - Xv6/Bio: the buffer cache of bio.c, as the list of buffers with their reference counts; the
--   disk of Xv6/Log has its contents.
-- - Xv6/File: the table of open files of file.c and its reference counts.
-- - Xv6/Pipe: the ring buffer of pipe.c, `pipewrite`, `piperead`, `pipeclose`; Pipe/Queue reads the
--   ring as a queue of bytes.
-- - Xv6/Kalloc: the page allocator of kalloc.c, with the course's `freemem`.
-- - Xv6/Vm: the page tables of vm.c, in the memory of Xv6/Kalloc. Vm/Space reads a directory as a map
--   from pages to entries; Vm/User has the routines for whole address spaces.
-- - Xv6/Syscall: the argument fetching and the dispatch of syscall.c, and, in Syscall/Sysproc, the
--   handlers of sysproc.c over Xv6/Proc and Xv6/Kalloc.
-- - Xv6/Fs: the file system of fs.c: blocks and free map in Fs, inodes in Fs/Inode, their content in
--   Fs/Content. Fs/Alloc reads the free map as a set of blocks, Fs/Owned a file as a map from indices
--   to blocks, Fs/Read a file as its bytes. Fs/Names has directories and paths.
-- - Xv6/Sysfile: the calls of sysfile.c, with descriptors in Sysfile/Fds and `sys_open` in
--   Sysfile/Open; File/Io has `filestat`, `fileread` and `filewrite` of file.c.
-- - Xv6/Print: `printint`, `cprintf` and `printf` of console.c and printf.c. Xv6/Ulib: ulib.c.
--   Xv6/Umalloc: the allocator of umalloc.c.
-- - Xv6/Str: string.c, and `stosb`, `stosl` of x86.h.
-- - Xv6/Spinlock: spinlock.c, with any number of CPUs interleaved at each read and write of the
--   lock's fields.
-- - Xv6/Sleeplock: sleeplock.c, with any number of processes that take turns, and others that wake
--   them.
-- - Base: numbers, lists, bits and Boolean tests that the parts share.
-- The witnesses of the results stand in the Tests module of each part.
--
-- How code is read. An integer is a natural number below 2 ^ w, with its wrap-around written out;
-- a negative `int` is its 32-bit pattern. A pointer to a table's entry is the entry's index. A
-- function that holds one lock throughout is one step; where it sleeps, what the others do
-- meanwhile is an argument. So it is where `exit` and `exit2` close the files, and where `fork`
-- gives `ptable.lock` up before its last store. A panic is `none`, or a constructor of its own. A
-- count of references to a file or to an inode is not cut at 2 ^ 31: the references are few. Calls
-- of a file that is not modelled are recorded in order (`Call`), and their answers (`kalloc`,
-- `copyuvm`, `allocuvm`, `deallocuvm`) are arguments there. The file system's disk is the bytes of
-- its blocks as the transaction in progress sees them, so that `log_write` and `brelse` leave no
-- trace there.
--
-- Bounds. A loop over an array recurses on the rounds left. `freerange` gets one round more than
-- there are pages below its end, and `freemem` any number of rounds above the 57344 pages below
-- PHYSTOP; the results on them say that the rounds are enough. `deallocuvm`, `allocuvm` and
-- `copyuvm` get a round more than there are pages, `readi` and `writei` one more than the blocks
-- that a range may touch, and `balloc` one for each block of the free map. The log's disk is
-- synchronous: a power cut comes between two block writes, and a block is written whole.
--
-- Not modelled: device drivers, traps, boot code and assembly, which act on hardware; the screen
-- and the line editor of console.c, exec and the other user programs. Of assignment1.c `draw_u`,
-- which only makes system calls; of bio.c the sleep locks of the buffers, of fs.c those of the
-- inodes; of sysfile.c `sys_exec` and the calls of `begin_op` and `end_op`; of pipe.c `pipealloc`;
-- of proc.c `userinit`, `forkret`, `procdump`; of spinlock.c the recorded call stacks; of vm.c
-- `loaduvm`, and `seginit`, `kvmalloc`, `switchkvm`, `switchuvm`, which load control and segment
-- registers.
pub mod Base
pub mod Asg01
pub mod Xv6
