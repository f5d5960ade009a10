-- ===== src/Boot.antt =====
-- The loader's course, src/boot/mftah_uefi/main.c: the password, the payload in memory, and the
-- hand-over to it.
pub mod Files
pub mod Payload
pub mod Password
pub mod Hints
pub mod Jump
pub mod Course
pub mod Disk
pub mod Main
pub mod Samples
mod Tests
