-- ===== src/Proc.antt =====
-- Processes: their numbers and their signals.
pub mod Pid
pub mod Signal
pub mod Links
pub mod Sched
pub mod Tree
