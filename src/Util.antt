-- ===== src/Util.antt =====
-- sflow/sflow_util.c: the byte order of a hyper (Hyper), itoa (Itoa), the statistics of the kernel
-- (Kstat), the text of an address (Mac), and the machine's time and memory (Machine).
pub mod Hyper
pub mod Itoa
pub mod Kstat
pub mod Machine
pub mod Mac
