-- ===== src/Protocol/CounterSample/Bytes.antt =====
-- What a counter sample puts on the wire.
use sflow.Common.{ℕ, ◌+◌, ◌≡◌, refl, List, [], ◌∷◌, ◌++◌, length}
use sflow.Memory.Endian.{Endian, htonl}
use sflow.Memory.Layout.{struct_image, struct_size, field_size}
use sflow.Memory.Buffer.{Writes}
use sflow.Memory.Flat.{headed-Writes}
use sflow.Protocol.CounterRecord.{CounterRecord, counter_record_flat}
use sflow.Protocol.CounterRecord.Bytes.{
  IsCounterRecord, counter_record_bytes, counter_record-Writes,
}
use sflow.Protocol.CounterSample.{CounterSample, counter_sample_fields, counter_sample_flat}
use sflow.Protocol.Sequence.{All, bytes_of, FlatWrites, flat_each-Writes}

unfoldable pub counter_sample_bytes : Endian → CounterSample → List ℕ
counter_sample_bytes e cs =
    struct_image e (counter_sample_fields cs) ++ bytes_of (counter_record_bytes e) cs.records

pub record IsCounterSample (e : Endian) (cs : CounterSample) : Type 0 where
  pub count : htonl e cs.count ≡ length cs.records
  pub records : All (IsCounterRecord e) cs.records

module _ (e : Endian) where
  all-Writes :
      (xs : List CounterRecord)
      → All (IsCounterRecord e) xs
      → All (FlatWrites (counter_record_flat e) (counter_record_bytes e)) xs
  all-Writes [] h = tt
  all-Writes (x ∷ xs) (hx, hxs) = ((λ at. counter_record-Writes e x at hx), all-Writes xs hxs)

  pub counter_sample-Writes :
      (cs : CounterSample) (at : ℕ)
      → IsCounterSample e cs
      → Writes at
          (counter_sample_bytes e cs)
          (length (counter_sample_bytes e cs))
          (counter_sample_flat e at cs)
  unfolding counter_sample_flat counter_sample_bytes counter_sample_fields struct_size field_size
  counter_sample-Writes cs at h =
      headed-Writes e at 12 (counter_sample_fields cs)
        (bytes_of (counter_record_bytes e) cs.records) _ refl
        (rw h.count (
          flat_each-Writes (counter_record_flat e) (counter_record_bytes e) cs.records (at + 12)
            (all-Writes cs.records h.records)))
