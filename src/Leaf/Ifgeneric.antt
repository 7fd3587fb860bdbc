-- ===== src/Leaf/Ifgeneric.antt =====
-- get_sample_ifgeneric of sflow/sflow_protocol_leaf_ifgeneric.c.
pub mod Counters
pub mod Laws
pub mod Missing
use sflow.Common.{
  ℕ, ◌-◌, ◌%◌, ◌^◌, List, [], ◌∷◌, Option, none, some, Outcome, ok, ◌>>=◌, or_fault, uninitialised,
}
use sflow.Common.Text.{codes}
use sflow.Memory.Endian.{Endian, htonl}
use sflow.Util.Hyper.{hton_h}
use sflow.Util.Kstat.{Kernel, link_stat_32, link_stat_64}
use sflow.DataList.{check_data, node_create, create, append}
use sflow.Protocol.Leaves.Interface.{IfGeneric}
use sflow.Protocol.Counter.{if_generic}
use sflow.Protocol.CounterRecord.{CounterRecord, counter_record_pack}
use sflow.Protocol.CounterSample.Pack.{counter_sample_pack}
use sflow.Protocol.Sample.{Sample, counter}
use sflow.Protocol.Sample.Pack.{sample_pack}
use sflow.Source.Types.{Source, as_ifgeneric_data}

-- SFLOW_UNKOWN
abbrev pub unknown : ℕ
unknown = 2 ^ 32 - 1

-- sflow_counter_generic_pack. The link speed and the octets go through `htonH`, the rest through
-- `htonl`.
unfoldable pub counter_generic_pack : Endian → Kernel → Source → Outcome IfGeneric
counter_generic_pack e kernel source = do
  datalink ← as_ifgeneric_data source.specific
  speed ← link_stat_64 kernel source.name (codes "ifspeed")
  duplex ← link_stat_32 kernel source.name (codes "link_duplex")
  state ← link_stat_32 kernel source.name (codes "link_state")
  in_octets ← link_stat_64 kernel source.name (codes "rbytes64")
  in_multicast ← link_stat_32 kernel source.name (codes "multircv")
  in_broadcast ← link_stat_32 kernel source.name (codes "brdcstrcv")
  in_errors ← link_stat_32 kernel source.name (codes "ierrors")
  in_unknown ← link_stat_32 kernel source.name (codes "unknowns")
  out_octets ← link_stat_64 kernel source.name (codes "obytes64")
  out_multicast ← link_stat_32 kernel source.name (codes "multixmt")
  out_broadcast ← link_stat_32 kernel source.name (codes "brdcstxmt")
  out_errors ← link_stat_32 kernel source.name (codes "oerrors")
  ok (record {
    if_index = htonl e datalink;
    if_type = htonl e source.id_type;
    if_speed = hton_h e speed;
    if_direction = htonl e duplex;
    if_status = htonl e state;
    if_in_octets = hton_h e in_octets;
    if_in_ucast_pkts = htonl e unknown;
    if_in_multicast_pkts = htonl e in_multicast;
    if_in_broadcast_pkts = htonl e in_broadcast;
    if_in_discards = htonl e unknown;
    if_in_errors = htonl e in_errors;
    if_in_unknown_protos = htonl e in_unknown;
    if_out_octets = hton_h e out_octets;
    if_out_ucast_pkts = htonl e unknown;
    if_out_multicast_pkts = htonl e out_multicast;
    if_out_broadcast_pkts = htonl e out_broadcast;
    if_out_discards = htonl e unknown;
    if_out_errors = htonl e out_errors;
    if_promiscuous_mode = htonl e 1;
  })

unfoldable pub get_sample_ifgeneric : Endian → Kernel → Source → Outcome (Sample × Source)
get_sample_ifgeneric e kernel source = do
  g ← counter_generic_pack e kernel source
  cr ← counter_record_pack e (if_generic g) 0 1
  temp_node ← node_create (codes "dummy node") cr check_data
  temp_list ← create CounterRecord (codes "dummy list")
  (cs, source') ← counter_sample_pack e (append temp_list temp_node) source
  sp ← sample_pack e (counter cs) 0 2
  ok (sp, source')
