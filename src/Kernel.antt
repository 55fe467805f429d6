-- ===== src/Kernel.antt =====
-- src/kernel: the parts of the kernel, in Ada. A procedure is a function of the state that returns its
-- out parameters and the new state; `U64` arithmetic wraps around at 2^64.
pub mod Tasks
pub mod PhysicalMemory
pub mod Rights
pub mod Capabilities
pub mod Notifications
pub mod Scheduler
mod Tests
mod CapTests
mod NotificationTests
mod SchedulerTests
