-- ===== src/Protocol/CounterSample.antt =====
-- Counter samples of sflow/sflow_protocol_branches.c.
pub mod Bytes
pub mod Pack
use sflow.Common.{ℕ, ◌+◌, List, [], ◌∷◌}
use sflow.Memory.Endian.{Endian, htonl}
use sflow.Memory.Layout.{Field, u32, struct_image}
use sflow.Memory.Buffer.{Cmd, pure, ◌>>=◌, ◌>>◌, memcpy}
use sflow.Protocol.CounterRecord.{CounterRecord, counter_record_flat}
use sflow.Protocol.Sequence.{flat_each}

-- sflow_cs_t, packed, and the records whose pointers follow it
pub record CounterSample : Type 0 where
  pub seq_no : ℕ
  pub dsrc : ℕ
  pub count : ℕ
  pub records : List CounterRecord

unfoldable pub counter_sample_fields : CounterSample → List Field
counter_sample_fields cs = u32 cs.seq_no ∷ u32 cs.dsrc ∷ u32 cs.count ∷ []

unfoldable pub counter_sample_flat : Endian → ℕ → CounterSample → Cmd ℕ
counter_sample_flat e at cs = do
  memcpy at (struct_image e (counter_sample_fields cs))
  n ← flat_each (counter_record_flat e) (htonl e cs.count) 0 cs.records (at + 12)
  pure (12 + n)
