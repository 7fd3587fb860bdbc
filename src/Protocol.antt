-- ===== src/Protocol.antt =====
-- The wire format.
pub mod Format
pub mod Leaves
pub mod Counter
pub mod CounterLen
pub mod CounterRecord
pub mod FlowRecord
pub mod Sequence
pub mod FlowSample
pub mod CounterSample
pub mod Sample
pub mod Datagram
