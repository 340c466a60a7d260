-- ===== src/Sim.antt =====
-- The garbage-collection simulator, sim/.
pub mod Block
pub mod Ssd
pub mod Collect
pub mod Greedy
pub mod TwoR
mod Tests
