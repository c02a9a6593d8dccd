-- ===== src/Tests.antt =====
-- The theorems at concrete inputs, and small operating systems to run them on.
pub mod Balance
pub mod Values
pub mod Family
pub mod Files
pub mod Forks
pub mod Frames
pub mod Lifetimes
pub mod Macros
pub mod Pipes
pub mod Processes
pub mod Threads
pub mod Trapping
pub mod Traps
pub mod Variables
