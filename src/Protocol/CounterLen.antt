-- ===== src/Protocol/CounterLen.antt =====
-- The length that sflow_counter_record_pack of sflow/sflow_protocol_branches.c computes for the
-- data from the format alone.
use sflow.Common.{ℕ, ◌-◌, ◌&&◌, ◌==◌, if◌then◌else◌, Outcome, ok, ◌>>=◌}
use sflow.Memory.Layout.{psize}
use sflow.Protocol.Leaves.Interface.{sizeof_if_generic}
use sflow.Protocol.Leaves.Host.{
  sizeof_host_descr, sizeof_host_parent, sizeof_host_cpu, sizeof_host_memory, sizeof_host_disk_io,
  sizeof_host_net_io,
}
use sflow.Protocol.Leaves.Virtual.{
  sizeof_virt_leaf, sizeof_virt_cpu, sizeof_virt_memory, sizeof_virt_net_io,
}
use sflow.Protocol.Counter.{Counter, as_host_adapters, as_flow_stat}

-- For a format that the ladder does not know the length stays 0.
unfoldable pub counter_len : ℕ → ℕ → Counter → Outcome ℕ
unfolding as_host_adapters as_flow_stat
counter_len ent fmt d =
    if ent == 0 && fmt == 1
    then ok (sizeof_if_generic - psize)
    else if ent == 0 && fmt == 2000
    then ok (sizeof_host_descr - psize)
    else if ent == 0 && fmt == 2001
    then (do x ← as_host_adapters d; ok x.len)
    else if ent == 0 && fmt == 2002
    then ok (sizeof_host_parent - psize)
    else if ent == 0 && fmt == 2003
    then ok (sizeof_host_cpu - psize)
    else if ent == 0 && fmt == 2004
    then ok (sizeof_host_memory - psize)
    else if ent == 0 && fmt == 2005
    then ok (sizeof_host_disk_io - psize)
    else if ent == 0 && fmt == 2006
    then ok (sizeof_host_net_io - psize)
    else if ent == 0 && fmt == 2100
    then ok (sizeof_virt_leaf - psize)
    else if ent == 0 && fmt == 2101
    then ok (sizeof_virt_cpu - psize)
    else if ent == 0 && fmt == 2102
    then ok (sizeof_virt_memory - psize)
    else if ent == 0 && fmt == 2104
    then ok (sizeof_virt_net_io - psize)
    else if ent == 52 && fmt == 52
    then (do x ← as_flow_stat d; ok (x.struct_size - psize))
    else ok 0
