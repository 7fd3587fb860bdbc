-- ===== src/Leaf/Flowsample/Laws.antt =====
-- A sampled packet becomes a well-formed sample. Its header is the memory that the source's
-- buffer holds when the sample is flattened.
use sflow.Common.{ℕ, ◌*◌, ◌%◌, ◌^◌, ◌≤◌, ◌≡◌, refl, [], ◌∷◌, ◌++◌, arith, length, length-append, ok}
use sflow.Common.Int.{pos}
use sflow.Common.Text.{codes}
use sflow.Memory.Endian.{Endian, htonl-htonl}
use sflow.Memory.Layout.{struct_image, struct_size, field_size, length-struct_image}
use sflow.DataList.{Node, DataList, check_data, node_create, create, append}
use sflow.DataList.Laws.{append-Holds}
use sflow.Protocol.FlowRecord.{Memory, FlowRecord, raw_pkt_pack, flow_record_pack}
use sflow.Protocol.FlowRecord.Bytes.{
  flow_record_bytes, flow_record_pack-IsFlowRecord, flow_record_pack-size,
}
use sflow.Protocol.FlowSample.{FlowSample, flow_sample_fields}
use sflow.Protocol.FlowSample.Bytes.{IsFlowSample, flow_sample_bytes}
use sflow.Protocol.FlowSample.Pack.{flow_sample_pack_one, sample_of}
use sflow.Protocol.Sample.{Sample, flow}
use sflow.Protocol.Sample.Bytes.{IsSample, sample_data_bytes}
use sflow.Protocol.Sample.Pack.{sample_pack-IsSample}
use sflow.Source.Types.{Source, Interrupt, interrupt, FlowsampleData, flowsample_data}
use sflow.Leaf.Flowsample.{with_pool, get_sample_flowsample}

-- What sflow_make_add_one_source_type makes of a flow_sample source.
pub record IsFlowsample (source : Source) (i : Interrupt) (d : FlowsampleData) : Type 0 where
  pub kind : source.kind ≡ interrupt i
  pub specific : source.specific ≡ flowsample_data d
  pub ent : source.ent ≡ 0
  pub fmt : source.fmt ≡ 1

module _ (e : Endian) (mem : Memory) (source : Source) (i : Interrupt) (d : FlowsampleData)
    (is : IsFlowsample source i d) where
  -- The source with its pool up to date
  pooled : Source
  pooled = record source {
    specific = flowsample_data (record d { pool = source.count * i.rate % 2 ^ 32 });
  }

  pooled-IsFlowsample : IsFlowsample pooled i (record d { pool = source.count * i.rate % 2 ^ 32 })
  unfolding pooled
  pooled-IsFlowsample = record { kind = is.kind; specific = refl; ent = is.ent; fmt = is.fmt }

  pooled-count : pooled.count ≡ source.count
  unfolding pooled
  pooled-count = refl

  pooled-source_type : pooled.source_type ≡ source.source_type
  unfolding pooled
  pooled-source_type = refl

  with_pool-pooled : with_pool source ≡ ok pooled
  unfolding with_pool pooled
  with_pool-pooled = rw (is.kind, is.specific)

  -- The flow sample of one packet
  module _ (pkt len : ℕ) where
    packet_record : FlowRecord
    packet_record = flow_record_pack e (raw_pkt_pack e pkt len) pooled

    packet_sample : FlowSample
    packet_sample =
        sample_of e pooled i (record d { pool = source.count * i.rate % 2 ^ 32 }) 1
          (packet_record ∷ [])

    packet_sample-IsFlowSample : len ≤ length (mem pkt) → IsFlowSample e mem packet_sample
    unfolding packet_sample packet_record pooled
    packet_sample-IsFlowSample there = record {
      count = htonl-htonl e 1;
      records = (flow_record_pack-IsFlowRecord e mem pkt len pooled is.ent is.fmt there, tt);
    }

    packet_sample-size :
        len ≤ length (mem pkt) → length (flow_sample_bytes e mem packet_sample) ≤ 184
    unfolding flow_sample_bytes packet_sample packet_record flow_sample_fields struct_size
        field_size
    packet_sample-size there = omega (
      arith,
      length-append (struct_image e (flow_sample_fields packet_sample))
          (flow_record_bytes e mem packet_record ++ []),
      length-append (flow_record_bytes e mem packet_record) [],
      length-struct_image e (flow_sample_fields packet_sample),
      flow_record_pack-size e mem pkt len pooled there,
    )

    -- For a flow_sample source and a packet that is in memory, get_sample_flowsample succeeds with
    -- a well-formed sample whose data have at most 184 bytes; the source keeps its count and is
    -- still a flow_sample source, with its pool set to count times rate in 32 bits and its type as
    -- it was.
    pub get_sample_flowsample-IsSample :
        len ≤ length (mem pkt)
        → (sp : Sample) × (source' : Source) × (get_sample_flowsample e source pkt len
            ≡ ok (sp, source'))
          × IsSample e mem sp
          × (length (sample_data_bytes e mem sp.content) ≤ 184)
          × IsFlowsample source' i (record d { pool = source.count * i.rate % 2 ^ 32 })
          × (source'.count ≡ source.count)
          × (source'.source_type ≡ source.source_type)
    unfolding get_sample_flowsample node_create create sample_data_bytes packet_record packet_sample
    get_sample_flowsample-IsSample there =
        let empty : DataList FlowRecord = record {
          name = codes "flow list";
          count = 0;
          data_size = pos 0;
          items = [];
        } in
        let node : Node FlowRecord = record {
          name = codes "flow node";
          content = packet_record;
          data_size = check_data;
        } in
        let holds =
          append-Holds empty [] node (record { items = refl; count = refl }) (omega arith) in
        let pooled_is = pooled-IsFlowsample in
        let fine = packet_sample-IsFlowSample there in
        let size = packet_sample-size there in
        let (sp, e_sp, is_sp, same) =
          sample_pack-IsSample e mem (flow packet_sample) fine (omega (arith, size)) in
        let packed =
          flow_sample_pack_one e pooled i (record d { pool = source.count * i.rate % 2 ^ 32 })
            pooled_is.kind pooled_is.specific (append empty node) node holds in
        (
          sp,
          pooled,
          rw (with_pool-pooled, packed, e_sp),
          is_sp,
          rw same size,
          pooled_is,
          pooled-count,
          pooled-source_type,
        )
