-- ===== src/Leaf/Records.antt =====
-- The four lines that the counter samplers of sflow/sflow_protocol_leaf_hostphy.c and
-- sflow/sflow_protocol_leaf_hostv.c repeat for each structure, and the two that make the sample.
pub mod Laws
pub mod Size
use sflow.Common.{ℕ, Outcome, ok, ◌>>=◌}
use sflow.Common.Text.{codes}
use sflow.Memory.Endian.{Endian}
use sflow.DataList.{DataList, check_data, node_create, append}
use sflow.Protocol.Counter.{Counter}
use sflow.Protocol.CounterRecord.{CounterRecord, counter_record_pack}
use sflow.Protocol.CounterSample.Pack.{counter_sample_pack}
use sflow.Protocol.Sample.{Sample, counter}
use sflow.Protocol.Sample.Pack.{sample_pack}
use sflow.Source.Types.{Source}

unfoldable pub attach :
    Endian → Counter → ℕ → DataList CounterRecord → Outcome (DataList CounterRecord)
attach e d fmt temp_list = do
  cr ← counter_record_pack e d 0 fmt
  temp_node ← node_create (codes "dummy node") cr check_data
  ok (append temp_list temp_node)

unfoldable pub finish : Endian → DataList CounterRecord → Source → Outcome (Sample × Source)
finish e temp_list source = do
  (cs, source') ← counter_sample_pack e temp_list source
  sp ← sample_pack e (counter cs) 0 2
  ok (sp, source')
