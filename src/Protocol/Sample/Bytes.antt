-- ===== src/Protocol/Sample/Bytes.antt =====
-- What a sample puts on the wire.
use sflow.Common.{ℕ, ◌+◌, ◌≡◌, refl, List, ◌++◌, length}
use sflow.Memory.Endian.{Endian, htonl}
use sflow.Memory.Layout.{struct_image, struct_size, field_size}
use sflow.Memory.Buffer.{Writes}
use sflow.Memory.Flat.{headed-Writes}
use sflow.Protocol.Format.{get_data_ent, get_data_fmt}
use sflow.Protocol.FlowRecord.{Memory}
use sflow.Protocol.FlowSample.Bytes.{IsFlowSample, flow_sample_bytes, flow_sample-Writes}
use sflow.Protocol.CounterSample.Bytes.{
  IsCounterSample, counter_sample_bytes, counter_sample-Writes,
}
use sflow.Protocol.Sample.{
  SampleData, flow, counter, Sample, sample_fields, sample_data_flat, sample_flat,
}

unfoldable pub sample_data_bytes : Endian → Memory → SampleData → List ℕ
sample_data_bytes e mem (flow fs) = flow_sample_bytes e mem fs
sample_data_bytes e mem (counter cs) = counter_sample_bytes e cs

unfoldable pub sample_bytes : Endian → Memory → Sample → List ℕ
unfolding sample_data_bytes
sample_bytes e mem sp = struct_image e (sample_fields sp) ++ sample_data_bytes e mem sp.content

-- The format number of the data
abbrev pub sample_format : SampleData → ℕ
sample_format (flow fs) = 1
sample_format (counter cs) = 2

abbrev pub IsSampleData : Endian → Memory → SampleData → Type 0
IsSampleData e mem (flow fs) = IsFlowSample e mem fs
IsSampleData e mem (counter cs) = IsCounterSample e cs

pub record IsSample (e : Endian) (mem : Memory) (sp : Sample) : Type 0 where
  pub is_data : IsSampleData e mem sp.content
  pub ent : get_data_ent (htonl e sp.dfmt) ≡ 0
  pub fmt : get_data_fmt (htonl e sp.dfmt) ≡ sample_format sp.content
  pub len : htonl e sp.len ≡ length (sample_data_bytes e mem sp.content)

module _ (e : Endian) (mem : Memory) where
  sample_data-Writes :
      (d : SampleData) (at : ℕ)
      → IsSampleData e mem d
      → Writes at
          (sample_data_bytes e mem d)
          (length (sample_data_bytes e mem d))
          (sample_data_flat e mem 0 (sample_format d) at d)
  unfolding sample_data_flat sample_data_bytes
  sample_data-Writes (flow fs) at h = flow_sample-Writes e mem fs at h
  sample_data-Writes (counter cs) at h = counter_sample-Writes e cs at h

  pub sample-Writes :
      (sp : Sample) (at : ℕ)
      → IsSample e mem sp
      → Writes at (sample_bytes e mem sp) (length (sample_bytes e mem sp)) (sample_flat e mem at sp)
  unfolding sample_flat sample_bytes sample_fields struct_size field_size
  sample-Writes sp at h =
      headed-Writes e at 8 (sample_fields sp) (sample_data_bytes e mem sp.content) _ refl
        (rw (h.ent, h.fmt) (sample_data-Writes sp.content (at + 8) h.is_data))
