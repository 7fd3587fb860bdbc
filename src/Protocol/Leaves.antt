-- ===== src/Protocol/Leaves.antt =====
-- The structures that hold the counters.
pub mod Interface
pub mod Host
pub mod Virtual
