-- ===== src/Xv6.antt =====
-- Asg02/xv6-2: the kernel and its user library.
pub mod Log
pub mod Proc
pub mod Str
pub mod Spinlock
pub mod Kalloc
pub mod Pipe
pub mod File
pub mod Bio
pub mod Sleeplock
pub mod Syscall
pub mod Vm
pub mod Fs
pub mod Sysfile
pub mod Print
pub mod Ulib
pub mod Umalloc
