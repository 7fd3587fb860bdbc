-- ===== src/Protocol/Leaves/Host.antt =====
-- The counter structures of a physical host, sflow/sflow_protocol_leaf_hostphy.h, all packed. A
-- `float` is the word that holds it.
use sflow.Common.{ℕ, List, [], ◌∷◌}
use sflow.Memory.Layout.{Field, u32, u64, chars}

-- sflow_cr_host_descr_t
pub record HostDescr : Type 0 where
  pub name_len : ℕ
  pub name : List ℕ
  pub uuid : List ℕ
  pub machine_type : ℕ
  pub os_name : ℕ
  pub os_release_len : ℕ
  pub os_release : List ℕ

unfoldable pub host_descr_fields : HostDescr → List Field
host_descr_fields x =
    u32 x.name_len
    ∷ chars 60 x.name
    ∷ chars 16 x.uuid
    ∷ u32 x.machine_type
    ∷ u32 x.os_name
    ∷ u32 x.os_release_len
    ∷ chars 28 x.os_release
    ∷ []

-- sizeof (sflow_cr_host_descr_t)
abbrev pub sizeof_host_descr : ℕ
sizeof_host_descr = 128

-- sflow_cr_host_parent_t
pub record HostParent : Type 0 where
  pub container_type : ℕ
  pub container_index : ℕ

unfoldable pub host_parent_fields : HostParent → List Field
host_parent_fields x = u32 x.container_type ∷ u32 x.container_index ∷ []

-- sizeof (sflow_cr_host_parent_t)
abbrev pub sizeof_host_parent : ℕ
sizeof_host_parent = 16

-- sflow_cr_host_cpu_t
pub record HostCpu : Type 0 where
  pub load_one : ℕ
  pub load_five : ℕ
  pub load_fifteen : ℕ
  pub proc_run : ℕ
  pub proc_total : ℕ
  pub cpu_num : ℕ
  pub cpu_speed : ℕ
  pub uptime : ℕ
  pub cpu_user : ℕ
  pub cpu_nice : ℕ
  pub cpu_system : ℕ
  pub cpu_idle : ℕ
  pub cpu_wio : ℕ
  pub cpu_intr : ℕ
  pub cpu_sintr : ℕ
  pub interrupts : ℕ
  pub contexts : ℕ

unfoldable pub host_cpu_fields : HostCpu → List Field
host_cpu_fields x =
    u32 x.load_one
    ∷ u32 x.load_five
    ∷ u32 x.load_fifteen
    ∷ u32 x.proc_run
    ∷ u32 x.proc_total
    ∷ u32 x.cpu_num
    ∷ u32 x.cpu_speed
    ∷ u32 x.uptime
    ∷ u32 x.cpu_user
    ∷ u32 x.cpu_nice
    ∷ u32 x.cpu_system
    ∷ u32 x.cpu_idle
    ∷ u32 x.cpu_wio
    ∷ u32 x.cpu_intr
    ∷ u32 x.cpu_sintr
    ∷ u32 x.interrupts
    ∷ u32 x.contexts
    ∷ []

-- sizeof (sflow_cr_host_cpu_t)
abbrev pub sizeof_host_cpu : ℕ
sizeof_host_cpu = 76

-- sflow_cr_host_memory_t
pub record HostMemory : Type 0 where
  pub total : ℕ
  pub free : ℕ
  pub shared : ℕ
  pub buffers : ℕ
  pub cached : ℕ
  pub swap_total : ℕ
  pub swap_free : ℕ
  pub page_in : ℕ
  pub page_out : ℕ
  pub swap_in : ℕ
  pub swap_out : ℕ

unfoldable pub host_memory_fields : HostMemory → List Field
host_memory_fields x =
    u64 x.total
    ∷ u64 x.free
    ∷ u64 x.shared
    ∷ u64 x.buffers
    ∷ u64 x.cached
    ∷ u64 x.swap_total
    ∷ u64 x.swap_free
    ∷ u32 x.page_in
    ∷ u32 x.page_out
    ∷ u32 x.swap_in
    ∷ u32 x.swap_out
    ∷ []

-- sizeof (sflow_cr_host_memory_t)
abbrev pub sizeof_host_memory : ℕ
sizeof_host_memory = 80

-- sflow_cr_host_disk_io_t
pub record HostDiskIo : Type 0 where
  pub total : ℕ
  pub free : ℕ
  pub part_max_used : ℕ
  pub reads : ℕ
  pub bytes_read : ℕ
  pub read_time : ℕ
  pub writes : ℕ
  pub bytes_written : ℕ
  pub write_time : ℕ

unfoldable pub host_disk_io_fields : HostDiskIo → List Field
host_disk_io_fields x =
    u64 x.total
    ∷ u64 x.free
    ∷ u32 x.part_max_used
    ∷ u32 x.reads
    ∷ u64 x.bytes_read
    ∷ u32 x.read_time
    ∷ u32 x.writes
    ∷ u64 x.bytes_written
    ∷ u32 x.write_time
    ∷ []

-- sizeof (sflow_cr_host_disk_io_t)
abbrev pub sizeof_host_disk_io : ℕ
sizeof_host_disk_io = 60

-- sflow_cr_host_net_io_t
pub record HostNetIo : Type 0 where
  pub bytes_in : ℕ
  pub pkts_in : ℕ
  pub errs_in : ℕ
  pub drops_in : ℕ
  pub bytes_out : ℕ
  pub pkts_out : ℕ
  pub errs_out : ℕ
  pub drops_out : ℕ

unfoldable pub host_net_io_fields : HostNetIo → List Field
host_net_io_fields x =
    u64 x.bytes_in
    ∷ u32 x.pkts_in
    ∷ u32 x.errs_in
    ∷ u32 x.drops_in
    ∷ u64 x.bytes_out
    ∷ u32 x.pkts_out
    ∷ u32 x.errs_out
    ∷ u32 x.drops_out
    ∷ []

-- sizeof (sflow_cr_host_net_io_t)
abbrev pub sizeof_host_net_io : ℕ
sizeof_host_net_io = 48
