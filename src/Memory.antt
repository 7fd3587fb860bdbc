-- ===== src/Memory.antt =====
-- Objects in memory: bytes of a number under either byte order (Endian), C structures as lists of
-- fields (Layout), the buffer that a datagram is flattened into (Buffer), and the shapes of the
-- functions that do it (Flat).
pub mod Endian
pub mod Layout
pub mod Buffer
pub mod Flat
