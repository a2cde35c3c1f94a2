-- ===== src/Scheduler.antt =====
-- src/output_scheduler.rs: the bounded queue in front of the physical terminal.
pub mod Effects
pub mod Markers
pub mod State
pub mod Enqueue
pub mod Visual
pub mod EventQueue
pub mod Synchronization
pub mod Activation
pub mod Completion
pub mod Writing
pub mod Drain
pub mod Order
pub mod Loops
pub mod Stream
pub mod Conservation
pub mod Delivery
pub mod Handing
pub mod Reporting
pub mod Requests
pub mod Leading
pub mod Started
pub mod Capacity
pub mod Bounded
pub mod Runs
