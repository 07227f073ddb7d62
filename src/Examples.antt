-- ===== src/Examples.antt =====
-- Small states of pinion, tests of the model, and the theorems at these states.
pub mod Loading
pub mod World
mod Threads
mod Interrupts
mod Config
mod State
mod System
mod Unfold
mod Load
mod Table
mod Log
mod Paging
mod Boot
mod MpTable
mod Taps
