-- ===== src/Iob.antt =====
-- The I/O benchmark of iob/: the parts below its channels.
pub mod Raid
pub mod RequestStack
pub mod PageState
pub mod Request
pub mod Channel
pub mod Generator
mod Tests
