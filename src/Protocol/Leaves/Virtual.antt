-- ===== src/Protocol/Leaves/Virtual.antt =====
-- The counter structures of a zone, sflow/sflow_protocol_leaf_hostv.h. They are not packed: before
-- a field of 8 bytes, and before the pointer at the end, stand the 4 bytes of padding of an LP64
-- machine.
use sflow.Common.{ℕ, List, [], ◌∷◌}
use sflow.Memory.Layout.{Field, u32, u64, pad}

-- sflow_cr_virt_leaf_t
pub record VirtLeaf : Type 0 where
  pub mhz : ℕ
  pub cpus : ℕ
  pub memory : ℕ
  pub memory_free : ℕ
  pub num_domains : ℕ

unfoldable pub virt_leaf_fields : VirtLeaf → List Field
virt_leaf_fields x =
    u32 x.mhz ∷ u32 x.cpus ∷ u64 x.memory ∷ u64 x.memory_free ∷ u32 x.num_domains ∷ pad 4 ∷ []

-- sizeof (sflow_cr_virt_leaf_t)
abbrev pub sizeof_virt_leaf : ℕ
sizeof_virt_leaf = 40

-- sflow_cr_virt_cpu_t
pub record VirtCpu : Type 0 where
  pub state : ℕ
  pub cpu_time : ℕ
  pub nr_virt_cpu : ℕ

unfoldable pub virt_cpu_fields : VirtCpu → List Field
virt_cpu_fields x = u32 x.state ∷ u32 x.cpu_time ∷ u32 x.nr_virt_cpu ∷ pad 4 ∷ []

-- sizeof (sflow_cr_virt_cpu_t)
abbrev pub sizeof_virt_cpu : ℕ
sizeof_virt_cpu = 24

-- sflow_cr_virt_memory_t
pub record VirtMemory : Type 0 where
  pub memory : ℕ
  pub max_memory : ℕ

unfoldable pub virt_memory_fields : VirtMemory → List Field
virt_memory_fields x = u64 x.memory ∷ u64 x.max_memory ∷ []

-- sizeof (sflow_cr_virt_memory_t)
abbrev pub sizeof_virt_memory : ℕ
sizeof_virt_memory = 24

-- sflow_cr_virt_net_io_t
pub record VirtNetIo : Type 0 where
  pub rx_bytes : ℕ
  pub rx_packets : ℕ
  pub rx_errs : ℕ
  pub rx_drop : ℕ
  pub tx_bytes : ℕ
  pub tx_packets : ℕ
  pub tx_errs : ℕ
  pub tx_drop : ℕ

unfoldable pub virt_net_io_fields : VirtNetIo → List Field
virt_net_io_fields x =
    u64 x.rx_bytes
    ∷ u32 x.rx_packets
    ∷ u32 x.rx_errs
    ∷ u32 x.rx_drop
    ∷ pad 4
    ∷ u64 x.tx_bytes
    ∷ u32 x.tx_packets
    ∷ u32 x.tx_errs
    ∷ u32 x.tx_drop
    ∷ pad 4
    ∷ []

-- sizeof (sflow_cr_virt_net_io_t)
abbrev pub sizeof_virt_net_io : ℕ
sizeof_virt_net_io = 56
