-- ===== src/Source.antt =====
-- The data sources of sflow/sflow_source.h and sflow_source.c.
pub mod Types
pub mod Text
pub mod Registry
pub mod Remove
pub mod Add
pub mod Pipeline
pub mod Show
