-- ===== src/Examples/Packs.antt =====
-- The packing and flattening of records, samples and datagrams at concrete inputs.
use sflow.Common.{ℕ, ◌^◌, ◌<◌, ◌≡◌, refl, arith, List, [], ◌∷◌, length, ok, fault, assert_failed}
use sflow.Common.Text.{codes}
use sflow.Common.Int.{negsuc}
use sflow.Memory.Endian.{little, htonl}
use sflow.Memory.Buffer.{Writes}
use sflow.DataList.{Node, DataList}
use sflow.Protocol.FlowRecord.{FlowRecord, raw_pkt_pack, flow_record_pack}
use sflow.Protocol.FlowSample.Pack.{flow_sample_pack, flow_sample_pack_aborts}
use sflow.Protocol.CounterRecord.{counter_record_flat}
use sflow.Protocol.CounterRecord.Bytes.{counter_record_bytes, counter_record-Writes}
use sflow.Protocol.Sample.{Sample, counter}
use sflow.Protocol.Sample.Bytes.{IsSample, sample_data_bytes}
use sflow.Protocol.Sample.Pack.{sample_pack, sample_pack-IsSample}
use sflow.Protocol.Datagram.{Datagram, datagram_pack, datagram_flat}
use sflow.Protocol.Datagram.Pack.{wire, datagram_flat-datagram_pack}
use sflow.Sender.Steps.{length-wire}
use sflow.Examples.Data.{
  agent, Any, memory, now, tap, tap_data, flow_source, parent_record, parent_record-IsCounterRecord,
  parent_counters, parent_counters-IsCounterSample, parent_sample, parent_sample-IsSample,
  parent_node, busy_sender, busy_sender-Sized, parent_node-IsQueued,
}

wire-size : length (wire little memory 7 60 agent (parent_sample ∷ [])) < 2 ^ 32
wire-size = omega (
  arith,
  length-wire little agent Any now 7 (parent_node ∷ []) 44 tt (parent_node-IsQueued, tt)
      busy_sender-Sized.sizes,
)

datagram_flat-datagram_pack_example :
    (dg : Datagram) × (datagram_pack little 7 60 agent busy_sender.buffered ≡ ok (dg, 8))
    × (datagram_flat little memory dg
        ≡ ok (
          length (wire little memory 7 60 agent (parent_sample ∷ [])),
          wire little memory 7 60 agent (parent_sample ∷ []),
        ))
datagram_flat-datagram_pack_example =
    datagram_flat-datagram_pack little 7 60 agent memory busy_sender.buffered (parent_node ∷ [])
      busy_sender-Sized.holds (parent_sample-IsSample memory, tt) wire-size

parent-small : length (sample_data_bytes little memory (counter parent_counters)) < 2 ^ 32
parent-small = omega (arith, (parent_sample-IsSample memory).len, stated)
  where
    stated : htonl little parent_sample.len ≡ 28
    stated = unfold htonl in refl

sample_pack-IsSample_example :
    (sp : Sample) × (sample_pack little (counter parent_counters) 0 2 ≡ ok sp)
    × IsSample little memory sp
    × (sp.content ≡ counter parent_counters)
sample_pack-IsSample_example =
    sample_pack-IsSample little memory (counter parent_counters) parent_counters-IsCounterSample
      parent-small

counter_record-Writes_example :
    Writes 40
      (counter_record_bytes little parent_record)
      (length (counter_record_bytes little parent_record))
      (counter_record_flat little 40 parent_record)
counter_record-Writes_example =
    counter_record-Writes little parent_record 40 parent_record-IsCounterRecord

abbrev packet : FlowRecord
packet = flow_record_pack little (raw_pkt_pack little 0 1514) flow_source

abbrev packet_node : Node FlowRecord
packet_node = record { name = codes "flow node"; content = packet; data_size = negsuc 0 }

abbrev packets : List (Node FlowRecord) → ℕ → DataList FlowRecord
packets items count = record {
  name = codes "flow list";
  count = count;
  data_size = negsuc 0;
  items = items;
}

flow_sample_pack_aborts_example :
    flow_sample_pack little (packets (packet_node ∷ packet_node ∷ packet_node ∷ []) 3) flow_source
    ≡ fault assert_failed
flow_sample_pack_aborts_example =
    flow_sample_pack_aborts little flow_source tap tap_data refl refl
      (packets (packet_node ∷ packet_node ∷ packet_node ∷ []) 3)
      (packet_node ∷ packet_node ∷ packet_node ∷ []) (record { items = refl; count = refl })
      (omega arith)
