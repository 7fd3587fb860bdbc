-- ===== src/Protocol/FlowSample.antt =====
-- Flow samples of sflow/sflow_protocol_branches.c.
pub mod Bytes
pub mod Pack
use sflow.Common
use sflow.Common.{
  ℕ, zero, suc, ◌+◌, ◌-◌, ◌*◌, ◌%◌, ◌^◌, List, [], ◌∷◌, ◌++◌, ltb, if◌then◌else◌, Outcome, ok,
  fault, out_of_fuel,
}
use sflow.Memory.Endian.{Endian, htonl}
use sflow.Memory.Layout.{Field, u32, struct_image}
use sflow.Memory.Buffer.{Cmd, pure, ◌>>=◌, ◌>>◌, memcpy}
use sflow.DataList.{DataList, read, free}
use sflow.Protocol.Format.{set_data_source}
use sflow.Protocol.FlowRecord.{Memory, FlowRecord, flow_record_flat}
use sflow.Protocol.Sequence.{flat_each}
use sflow.Source.Types.{Source, as_interrupt, as_flowsample_data}

-- sflow_fs_t, packed, and the records whose pointers follow it
pub record FlowSample : Type 0 where
  pub seq_no : ℕ
  pub dsrc : ℕ
  pub rate : ℕ
  pub pool : ℕ
  pub drops : ℕ
  pub input_if : ℕ
  pub output_if : ℕ
  pub count : ℕ
  pub records : List FlowRecord

unfoldable pub flow_sample_fields : FlowSample → List Field
flow_sample_fields fs =
    u32 fs.seq_no
    ∷ u32 fs.dsrc
    ∷ u32 fs.rate
    ∷ u32 fs.pool
    ∷ u32 fs.drops
    ∷ u32 fs.input_if
    ∷ u32 fs.output_if
    ∷ u32 fs.count
    ∷ []

-- SFLOW_UNKOWN
abbrev pub unknown : Endian → ℕ
unknown e = htonl e (2 ^ 32 - 1)

unfoldable pub flow_sample_flat : Endian → Memory → ℕ → FlowSample → Cmd ℕ
flow_sample_flat e mem at fs = do
  memcpy at (struct_image e (flow_sample_fields fs))
  n ← flat_each (flow_record_flat e mem) (htonl e fs.count) 0 fs.records (at + 32)
  pure (32 + n)

-- for (i = 0; i < record_list->sdl_count; i++): the bound is read anew in each round, and each
-- round takes a node off the list. `taken` are the pointers stored so far.
unfoldable pub take_records :
    ℕ → ℕ → DataList FlowRecord → List FlowRecord → Outcome (DataList FlowRecord × List FlowRecord)
take_records zero i l taken = if ltb i l.count then fault out_of_fuel else ok (l, taken)
take_records (suc fuel) i l taken =
    if ltb i l.count
    then Common.◌>>=◌ (read l)
        (λ (node, rest). take_records fuel (i + 1) rest (taken ++ node.content ∷ []))
    else ok (l, taken)
