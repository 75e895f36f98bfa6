-- ===== src/Proc.antt =====
-- pkg/proc: jobs and the runner that supervises them.
pub mod Phase
pub mod BackOff
pub mod WaitStatus
pub mod BaseJob
pub mod BootJob
pub mod CommonJob
pub mod LazyJob
pub mod Listener
pub mod Api
pub mod Reaper
pub mod Runner
