-- ===== src/Protocol/FlowSample/Bytes.antt =====
-- What a flow sample puts on the wire.
use sflow.Common.{ℕ, ◌+◌, ◌≡◌, refl, List, [], ◌∷◌, ◌++◌, length}
use sflow.Memory.Endian.{Endian, htonl}
use sflow.Memory.Layout.{struct_image, struct_size, field_size}
use sflow.Memory.Buffer.{Writes}
use sflow.Memory.Flat.{headed-Writes}
use sflow.Protocol.FlowRecord.{Memory, FlowRecord, flow_record_flat}
use sflow.Protocol.FlowRecord.Bytes.{IsFlowRecord, flow_record_bytes, flow_record-Writes}
use sflow.Protocol.FlowSample.{FlowSample, flow_sample_fields, flow_sample_flat}
use sflow.Protocol.Sequence.{All, bytes_of, FlatWrites, flat_each-Writes}

unfoldable pub flow_sample_bytes : Endian → Memory → FlowSample → List ℕ
flow_sample_bytes e mem fs =
    struct_image e (flow_sample_fields fs) ++ bytes_of (flow_record_bytes e mem) fs.records

pub record IsFlowSample (e : Endian) (mem : Memory) (fs : FlowSample) : Type 0 where
  pub count : htonl e fs.count ≡ length fs.records
  pub records : All (IsFlowRecord e mem) fs.records

module _ (e : Endian) (mem : Memory) where
  all-Writes :
      (xs : List FlowRecord)
      → All (IsFlowRecord e mem) xs
      → All (FlatWrites (flow_record_flat e mem) (flow_record_bytes e mem)) xs
  all-Writes [] h = tt
  all-Writes (x ∷ xs) (hx, hxs) = ((λ at. flow_record-Writes e mem x at hx), all-Writes xs hxs)

  pub flow_sample-Writes :
      (fs : FlowSample) (at : ℕ)
      → IsFlowSample e mem fs
      → Writes at
          (flow_sample_bytes e mem fs)
          (length (flow_sample_bytes e mem fs))
          (flow_sample_flat e mem at fs)
  unfolding flow_sample_flat flow_sample_bytes flow_sample_fields struct_size field_size
  flow_sample-Writes fs at h =
      headed-Writes e at 32 (flow_sample_fields fs) (bytes_of (flow_record_bytes e mem) fs.records)
        _ refl
        (rw h.count (
          flat_each-Writes (flow_record_flat e mem) (flow_record_bytes e mem) fs.records (at + 32)
            (all-Writes fs.records h.records)))
