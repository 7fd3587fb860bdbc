-- ===== src/Examples/Samples.antt =====
-- The samples of a flow source and of a link.
use sflow.Common.{◌*◌, ◌%◌, ◌^◌, ◌≤◌, ◌≡◌, refl, arith, length, ok}
use sflow.Memory.Endian.{little}
use sflow.Memory.Buffer.{Writes}
use sflow.Protocol.FlowRecord.{raw_pkt_pack, flow_record_pack, flow_record_flat}
use sflow.Protocol.CounterSample.Pack.{counted}
use sflow.Protocol.Sample.{Sample}
use sflow.Protocol.Sample.Bytes.{IsSample, sample_data_bytes}
use sflow.Source.Types.{Source}
use sflow.Leaf.Flowsample.{get_sample_flowsample}
use sflow.Leaf.Flowsample.Laws.{IsFlowsample, get_sample_flowsample-IsSample}
use sflow.Leaf.Flowsample.Wire.{packet_wire, flow_record_flat-packet_wire}
use sflow.Leaf.Ifgeneric.{get_sample_ifgeneric}
use sflow.Leaf.Ifgeneric.Laws.{sample_wire, get_sample_ifgeneric-IsSample}
use sflow.Leaf.Fit.{HasBuffer, get_sample_flowsample-IsFit}
use sflow.Sender.Invariant.{IsFit}
use sflow.Examples.Data.{
  agent, memory, memory-size, tap, tap_data, flow_source, flow_source-IsFlowsample, link_source,
  stats, link_counters, link_source-Reports,
}

get_sample_flowsample-IsFit_example :
    (sp : Sample) × (source' : Source) × (get_sample_flowsample little flow_source 0 1514
      ≡ ok (sp, source'))
    × IsFit little agent (HasBuffer 0) sp
    × IsFlowsample source' tap (record tap_data { pool = 3 * 100 % 2 ^ 32 })
    × (source'.source_type ≡ flow_source.source_type)
    × (source'.count ≡ 3)
get_sample_flowsample-IsFit_example =
    get_sample_flowsample-IsFit little agent flow_source memory tap tap_data 0 1514
      flow_source-IsFlowsample (memory-size 0) (omega arith)

get_sample_flowsample-IsSample_example :
    (sp : Sample) × (source' : Source) × (get_sample_flowsample little flow_source 0 1514
      ≡ ok (sp, source'))
    × IsSample little memory sp
    × (length (sample_data_bytes little memory sp.content) ≤ 184)
    × IsFlowsample source' tap (record tap_data { pool = 3 * 100 % 2 ^ 32 })
    × (source'.count ≡ 3)
    × (source'.source_type ≡ flow_source.source_type)
get_sample_flowsample-IsSample_example =
    get_sample_flowsample-IsSample little memory flow_source tap tap_data flow_source-IsFlowsample 0
      1514 (omega (arith, memory-size 0))

flow_record_flat-packet_wire_example :
    Writes 100 (packet_wire 1514 (memory 0)) (length (packet_wire 1514 (memory 0))) (
      flow_record_flat little memory 100
        (flow_record_pack little (raw_pkt_pack little 0 1514) flow_source))
flow_record_flat-packet_wire_example =
    flow_record_flat-packet_wire little memory 0 1514 flow_source refl refl 100
      (omega (arith, memory-size 0))

get_sample_ifgeneric-IsSample_example :
    (sp : Sample) × (get_sample_ifgeneric little stats link_source ≡ ok (sp, counted link_source))
    × IsSample little memory sp
    × (sample_data_bytes little memory sp.content ≡ sample_wire link_source 2 link_counters)
get_sample_ifgeneric-IsSample_example =
    get_sample_ifgeneric-IsSample little stats link_source 2 link_counters refl link_source-Reports
      memory
