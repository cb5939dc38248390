-- ===== src/Proc.antt =====
-- src/proc_helper.c
pub mod Substrings
pub mod Paths
pub mod Args
pub mod Children
pub mod Wait
pub mod Pipes
pub mod Time
