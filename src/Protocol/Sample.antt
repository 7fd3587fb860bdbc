-- ===== src/Protocol/Sample.antt =====
-- Samples of sflow/sflow_protocol_branches.c, with the data of a flow sample or of a counter
-- sample.
pub mod Bytes
pub mod Pack
use sflow.Common.{ℕ, ◌+◌, ◌&&◌, List, [], ◌∷◌, ◌==◌, if◌then◌else◌, Outcome, ok, fault, bad_cast}
use sflow.Memory.Endian.{Endian, htonl}
use sflow.Memory.Layout.{Field, u32, struct_image}
use sflow.Memory.Buffer.{Cmd, pure, fail, ◌>>=◌, ◌>>◌, memcpy}
use sflow.Protocol.Format.{get_data_ent, get_data_fmt}
use sflow.Protocol.FlowRecord.{Memory}
use sflow.Protocol.FlowSample.{FlowSample, flow_sample_flat}
use sflow.Protocol.CounterSample.{CounterSample, counter_sample_flat}

pub data SampleData : Type 0 where
  flow : FlowSample → SampleData
  counter : CounterSample → SampleData

-- sflow_sp_t, packed
pub record Sample : Type 0 where
  pub dfmt : ℕ
  pub len : ℕ
  pub content : SampleData

unfoldable pub sample_fields : Sample → List Field
sample_fields sp = u32 sp.dfmt ∷ u32 sp.len ∷ []

unfoldable pub as_flow : SampleData → Outcome FlowSample
as_flow (flow fs) = ok fs
as_flow (counter cs) = fault bad_cast

unfoldable pub as_counter : SampleData → Outcome CounterSample
as_counter (counter cs) = ok cs
as_counter (flow fs) = fault bad_cast

-- For another format only a line is logged.
unfoldable pub sample_data_flat : Endian → Memory → ℕ → ℕ → ℕ → SampleData → Cmd ℕ
unfolding as_flow as_counter
sample_data_flat e mem ent fmt at d =
    if ent == 0 && fmt == 1
    then (do fs ← fail (as_flow d); flow_sample_flat e mem at fs)
    else if ent == 0 && fmt == 2
    then (do cs ← fail (as_counter d); counter_sample_flat e at cs)
    else pure 0

unfoldable pub sample_flat : Endian → Memory → ℕ → Sample → Cmd ℕ
sample_flat e mem at sp = do
  memcpy at (struct_image e (sample_fields sp))
  let dfmt = htonl e sp.dfmt
  n ← sample_data_flat e mem (get_data_ent dfmt) (get_data_fmt dfmt) (at + 8) sp.content
  pure (8 + n)
