-- ===== src/Leaf/Flowsample.antt =====
-- get_sample_flowsample of sflow/sflow_protocol_leaf_flowsample.c.
pub mod Laws
pub mod Wire
use sflow.Common.{ℕ, ◌*◌, ◌%◌, ◌^◌, Outcome, ok, ◌>>=◌}
use sflow.Common.Text.{codes}
use sflow.Memory.Endian.{Endian}
use sflow.DataList.{check_data, node_create, create, append}
use sflow.Protocol.FlowRecord.{FlowRecord, raw_pkt_pack, flow_record_pack}
use sflow.Protocol.FlowSample.Pack.{flow_sample_pack}
use sflow.Protocol.Sample.{Sample, flow}
use sflow.Protocol.Sample.Pack.{sample_pack}
use sflow.Source.Types.{Source, flowsample_data, as_interrupt, as_flowsample_data}

-- The source with the pool of packets that its samples stand for.
unfoldable pub with_pool : Source → Outcome Source
with_pool source = do
  i ← as_interrupt source.kind
  d ← as_flowsample_data source.specific
  ok (record source {
    specific = flowsample_data (record d { pool = source.count * i.rate % 2 ^ 32 });
  })

unfoldable pub get_sample_flowsample : Endian → Source → ℕ → ℕ → Outcome (Sample × Source)
get_sample_flowsample e source pkt len = do
  source' ← with_pool source
  let fr = flow_record_pack e (raw_pkt_pack e pkt len) source'
  temp_node ← node_create (codes "flow node") fr check_data
  temp_list ← create FlowRecord (codes "flow list")
  fs ← flow_sample_pack e (append temp_list temp_node) source'
  sp ← sample_pack e (flow fs) 0 1
  ok (sp, source')
