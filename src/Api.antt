-- ===== src/Api.antt =====
-- The calls that a kernel makes of pinion (src/pinion64/api/). The assembly stub of a call turns
-- interrupts off and on around it, and some stubs then yield: Api/Stub.antt.
pub mod Thread
pub mod Interrupt
pub mod Fault
pub mod Page
pub mod State
