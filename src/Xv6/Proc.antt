-- ===== src/Xv6/Proc.antt =====
-- Asg02/xv6-2/proc.c and proc.h: processes.
pub mod Table
pub mod Pids
pub mod Create
pub mod Exit
pub mod Sched
mod Tests
