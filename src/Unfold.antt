-- ===== src/Unfold.antt =====
-- unfold, the loader of pinion (src/unfold).
pub mod Messages
pub mod Elf
pub mod Multiboot
pub mod Objects
pub mod Boot
