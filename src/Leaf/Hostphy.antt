-- ===== src/Leaf/Hostphy.antt =====
-- sflow/sflow_protocol_leaf_hostphy.c: the counters of the physical host.
pub mod Links
pub mod Cpu
pub mod Memory
pub mod Descr
pub mod Laws
use sflow.Common.{ℕ, Outcome, ok, ◌>>=◌}
use sflow.Common.Text.{codes}
use sflow.Memory.Endian.{Endian}
use sflow.DataList.{create}
use sflow.Protocol.Counter.{
  host_descr, host_adapters, host_cpu, host_memory, host_disk_io, host_net_io,
}
use sflow.Protocol.CounterRecord.{CounterRecord}
use sflow.Protocol.Sample.{Sample}
use sflow.Source.Types.{Source}
use sflow.Leaf.System.{System}
use sflow.Leaf.Records.{attach, finish}
use sflow.Leaf.Hostphy.Links.{adapters_pack, net_io_pack}
use sflow.Leaf.Hostphy.Cpu.{cpu_pack}
use sflow.Leaf.Hostphy.Memory.{memory_pack}
use sflow.Leaf.Hostphy.Descr.{descr_pack, disk_io_pack}

unfoldable pub get_sample_hostphy : Endian → System → Source → Outcome (Sample × Source)
get_sample_hostphy e sys source = do
  list0 ← create CounterRecord (codes "dummy list")
  list1 ← attach e (host_descr (descr_pack e sys)) 2000 list0
  a ← adapters_pack e sys
  list2 ← attach e (host_adapters a) 2001 list1
  hc ← cpu_pack e sys
  list3 ← attach e (host_cpu hc) 2003 list2
  hm ← memory_pack e sys
  list4 ← attach e (host_memory hm) 2004 list3
  list5 ← attach e (host_disk_io (disk_io_pack e sys)) 2005 list4
  hn ← net_io_pack e sys
  list6 ← attach e (host_net_io hn) 2006 list5
  finish e list6 source
