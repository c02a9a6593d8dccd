-- ===== src/Proc.antt =====
-- src/core/posix/linux/proc/process: the files of a process under /proc.
pub mod Oom
pub mod Stat
