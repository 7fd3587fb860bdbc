-- ===== src/Protocol/Counter.antt =====
-- The counter data that a record of sflow/sflow_protocol_branches.c can point to, and the flat
-- function of each structure: it copies the structure without its last pointer, and returns the
-- number of bytes. The two files of the flow_stat structure are not in the repository: what its
-- flat function writes, and the structure's size, are part of the value. Of `free` only what it
-- does to a word that is read behind it is modelled.
use sflow.Common.{
  ℕ, ◌-◌, Option, or_fault, List, [], ◌∷◌, length, leb, if◌then◌else◌, take, Outcome, ok, fault,
  bad_cast, out_of_bounds,
}
use sflow.Memory.Endian.{Endian}
use sflow.Memory.Layout.{Field, u32, chars, psize, struct_image}
use sflow.Memory.Buffer.{Cmd, pure, fail, ◌>>◌, memcpy}
use sflow.Protocol.Leaves.Interface.{IfGeneric, if_generic_fields, sizeof_if_generic}
use sflow.Protocol.Leaves.Host.{
  HostDescr, host_descr_fields, sizeof_host_descr, HostParent, host_parent_fields,
  sizeof_host_parent, HostCpu, host_cpu_fields, sizeof_host_cpu, HostMemory, host_memory_fields,
  sizeof_host_memory, HostDiskIo, host_disk_io_fields, sizeof_host_disk_io, HostNetIo,
  host_net_io_fields, sizeof_host_net_io,
}
use sflow.Protocol.Leaves.Virtual.{
  VirtLeaf, virt_leaf_fields, sizeof_virt_leaf, VirtCpu, virt_cpu_fields, sizeof_virt_cpu,
  VirtMemory, virt_memory_fields, sizeof_virt_memory, VirtNetIo, virt_net_io_fields,
  sizeof_virt_net_io,
}

-- sflow_cr_host_adapter_t and the sflow_cr_host_adapter_mac_t behind it
pub record Adapter : Type 0 where
  pub if_index : ℕ
  pub mac_count : ℕ
  pub mac : List ℕ

unfoldable pub adapter_fields : List Adapter → List Field
adapter_fields [] = []
adapter_fields (a ∷ rest) = u32 a.if_index ∷ u32 a.mac_count ∷ chars 8 a.mac ∷ adapter_fields rest

-- sflow_cr_host_adapters_t, whose pointer stands first; the adapters follow the structure.
-- `freed_len` is no field: it is what has_len reads as once `free` got the structure, `none` where
-- reading it fails. The flat function does read it then; C leaves the result undefined, and the
-- allocator decides it.
pub record HostAdapters : Type 0 where
  pub len : ℕ
  pub freed_len : Option ℕ
  pub count : ℕ
  pub adapters : List Adapter

unfoldable pub host_adapters_fields : HostAdapters → List Field
unfolding adapter_fields
host_adapters_fields x = u32 x.count ∷ adapter_fields x.adapters

pub record FlowStat : Type 0 where
  pub struct_size : ℕ
  pub bytes : List ℕ

pub data Counter : Type 0 where
  if_generic : IfGeneric → Counter
  host_descr : HostDescr → Counter
  host_adapters : HostAdapters → Counter
  host_parent : HostParent → Counter
  host_cpu : HostCpu → Counter
  host_memory : HostMemory → Counter
  host_disk_io : HostDiskIo → Counter
  host_net_io : HostNetIo → Counter
  virt_leaf : VirtLeaf → Counter
  virt_cpu : VirtCpu → Counter
  virt_memory : VirtMemory → Counter
  virt_net_io : VirtNetIo → Counter
  flow_stat : FlowStat → Counter
  null : Counter

-- A read through the untyped pointer `scr_data`: undefined unless it points to an object of that
-- type; `null` is the pointer NULL.
unfoldable pub as_if_generic : Counter → Outcome IfGeneric
as_if_generic (if_generic x) = ok x
as_if_generic _ = fault bad_cast

unfoldable pub as_host_descr : Counter → Outcome HostDescr
as_host_descr (host_descr x) = ok x
as_host_descr _ = fault bad_cast

unfoldable pub as_host_adapters : Counter → Outcome HostAdapters
as_host_adapters (host_adapters x) = ok x
as_host_adapters _ = fault bad_cast

unfoldable pub as_host_parent : Counter → Outcome HostParent
as_host_parent (host_parent x) = ok x
as_host_parent _ = fault bad_cast

unfoldable pub as_host_cpu : Counter → Outcome HostCpu
as_host_cpu (host_cpu x) = ok x
as_host_cpu _ = fault bad_cast

unfoldable pub as_host_memory : Counter → Outcome HostMemory
as_host_memory (host_memory x) = ok x
as_host_memory _ = fault bad_cast

unfoldable pub as_host_disk_io : Counter → Outcome HostDiskIo
as_host_disk_io (host_disk_io x) = ok x
as_host_disk_io _ = fault bad_cast

unfoldable pub as_host_net_io : Counter → Outcome HostNetIo
as_host_net_io (host_net_io x) = ok x
as_host_net_io _ = fault bad_cast

unfoldable pub as_virt_leaf : Counter → Outcome VirtLeaf
as_virt_leaf (virt_leaf x) = ok x
as_virt_leaf _ = fault bad_cast

unfoldable pub as_virt_cpu : Counter → Outcome VirtCpu
as_virt_cpu (virt_cpu x) = ok x
as_virt_cpu _ = fault bad_cast

unfoldable pub as_virt_memory : Counter → Outcome VirtMemory
as_virt_memory (virt_memory x) = ok x
as_virt_memory _ = fault bad_cast

unfoldable pub as_virt_net_io : Counter → Outcome VirtNetIo
as_virt_net_io (virt_net_io x) = ok x
as_virt_net_io _ = fault bad_cast

unfoldable pub as_flow_stat : Counter → Outcome FlowStat
as_flow_stat (flow_stat x) = ok x
as_flow_stat _ = fault bad_cast

-- memcpy of has_len bytes from the address of has_count; the object holds no more than the count
-- and the adapters.
unfoldable pub copy_adapters : ℕ → ℕ → List ℕ → Cmd (Unit {0})
copy_adapters at len object =
    if leb len (length object) then memcpy at (take len object) else (λ _. fault out_of_bounds)

module _ (e : Endian) where
  unfoldable pub counter_generic_flat : ℕ → IfGeneric → Cmd ℕ
  counter_generic_flat at x = do
    memcpy at (struct_image e (if_generic_fields x))
    pure (sizeof_if_generic - psize)

  unfoldable pub host_descr_flat : ℕ → HostDescr → Cmd ℕ
  host_descr_flat at x = do
    memcpy at (struct_image e (host_descr_fields x))
    pure (sizeof_host_descr - psize)

  -- free(cr) comes before has_len is read for the result.
  unfoldable pub host_adapters_flat : ℕ → HostAdapters → Cmd ℕ
  unfolding copy_adapters
  host_adapters_flat at x = do
    copy_adapters at x.len (struct_image e (host_adapters_fields x))
    fail (or_fault x.freed_len out_of_bounds)

  unfoldable pub host_parent_flat : ℕ → HostParent → Cmd ℕ
  host_parent_flat at x = do
    memcpy at (struct_image e (host_parent_fields x))
    pure (sizeof_host_parent - psize)

  unfoldable pub host_cpu_flat : ℕ → HostCpu → Cmd ℕ
  host_cpu_flat at x = do
    memcpy at (struct_image e (host_cpu_fields x))
    pure (sizeof_host_cpu - psize)

  unfoldable pub host_memory_flat : ℕ → HostMemory → Cmd ℕ
  host_memory_flat at x = do
    memcpy at (struct_image e (host_memory_fields x))
    pure (sizeof_host_memory - psize)

  unfoldable pub host_disk_io_flat : ℕ → HostDiskIo → Cmd ℕ
  host_disk_io_flat at x = do
    memcpy at (struct_image e (host_disk_io_fields x))
    pure (sizeof_host_disk_io - psize)

  unfoldable pub host_net_io_flat : ℕ → HostNetIo → Cmd ℕ
  host_net_io_flat at x = do
    memcpy at (struct_image e (host_net_io_fields x))
    pure (sizeof_host_net_io - psize)

  unfoldable pub virt_leaf_flat : ℕ → VirtLeaf → Cmd ℕ
  virt_leaf_flat at x = do
    memcpy at (struct_image e (virt_leaf_fields x))
    pure (sizeof_virt_leaf - psize)

  unfoldable pub virt_cpu_flat : ℕ → VirtCpu → Cmd ℕ
  virt_cpu_flat at x = do
    memcpy at (struct_image e (virt_cpu_fields x))
    pure (sizeof_virt_cpu - psize)

  unfoldable pub virt_memory_flat : ℕ → VirtMemory → Cmd ℕ
  virt_memory_flat at x = do
    memcpy at (struct_image e (virt_memory_fields x))
    pure (sizeof_virt_memory - psize)

  unfoldable pub virt_net_io_flat : ℕ → VirtNetIo → Cmd ℕ
  virt_net_io_flat at x = do
    memcpy at (struct_image e (virt_net_io_fields x))
    pure (sizeof_virt_net_io - psize)

  unfoldable pub flow_stat_flat : ℕ → FlowStat → Cmd ℕ
  flow_stat_flat at x = do memcpy at x.bytes; pure (length x.bytes)
