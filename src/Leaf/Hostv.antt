-- ===== src/Leaf/Hostv.antt =====
-- sflow/sflow_protocol_leaf_hostv.c: the counters of a zone.
pub mod Zones
pub mod Packs
pub mod Descr
pub mod Totals
pub mod Laws
pub mod Gone
use sflow.Common.{ℕ, Outcome, ok, ◌>>=◌}
use sflow.Common.Text.{codes}
use sflow.Memory.Endian.{Endian}
use sflow.DataList.{create}
use sflow.Protocol.Counter.{Counter, host_descr, host_parent, virt_leaf, virt_net_io}
use sflow.Protocol.CounterRecord.{CounterRecord}
use sflow.Protocol.Sample.{Sample}
use sflow.Source.Types.{Source, as_hostv_data}
use sflow.Leaf.Records.{attach, finish}
use sflow.Leaf.Hostv.Zones.{ZoneCache}
use sflow.Leaf.Hostv.Packs.{
  ZoneSystem, descr_pack_v, parent_pack_v, virt_node_pack, virt_cpu_pack, virt_memory_pack,
  virt_net_io_pack,
}

-- The cache of the zones is a global variable.
unfoldable pub get_sample_hostv :
    Endian → ZoneSystem → Source → ZoneCache → Outcome (Sample × Source × ZoneCache)
get_sample_hostv e zs source cache = do
  list0 ← create CounterRecord (codes "dummy list")
  zone_id ← as_hostv_data source.specific
  vd ← descr_pack_v e zs source.name zone_id
  list1 ← attach e (host_descr vd) 2000 list0
  list2 ← attach e (host_parent (parent_pack_v e)) 2002 list1
  vn ← virt_node_pack e zs
  list3 ← attach e (virt_leaf vn) 2100 list2
  (vc, cache1) ← virt_cpu_pack e zs source.name zone_id cache
  list4 ← attach e vc 2101 list3
  (vm, cache2) ← virt_memory_pack e zs source.name zone_id cache1
  list5 ← attach e vm 2102 list4
  vt ← virt_net_io_pack e zs zone_id
  list6 ← attach e (virt_net_io vt) 2104 list5
  (sp, source') ← finish e list6 source
  ok (sp, source', cache2)
