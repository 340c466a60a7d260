-- ===== src/Shared.antt =====
-- What the simulator and the benchmark share: the directory shared/.
pub mod Text
pub mod Pattern
pub mod Hist
mod Tests
