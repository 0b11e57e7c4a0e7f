-- ===== src/Proc.antt =====
-- src/proc.c: the process table, the scheduler and the process system calls. MAX_PROCS is the
-- length of `procs`. A system call that gives the cpu away by `swtch` ends there: what it does when
-- it is switched back in is a function of its own.

pub mod Table
pub mod Wake
pub mod Fds
pub mod Io
pub mod Sched
pub mod Wait
pub mod Procfs
pub mod Fork
pub mod Exec
pub mod Calls
