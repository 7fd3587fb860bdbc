-- ===== src/Leaf.antt =====
-- The functions that take a sample of a source, sflow/sflow_protocol_leaf_*.c, and which samples a
-- packet has room for (Fit).
pub mod Flowsample
pub mod Ifgeneric
pub mod Fit
pub mod Records
pub mod System
pub mod Hostphy
pub mod Hostv
