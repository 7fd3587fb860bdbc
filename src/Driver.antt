-- ===== src/Driver.antt =====
-- The interrupt thread of sflow/sflow_driver.c: what it does with one descriptor that `select` found
-- readable and `read` gave a packet for, `len` bytes in the thread's buffer at `pkt`.
pub mod Laws
pub mod Poll
pub mod Stored
pub mod Interrupts
use sflow.Common.{
  ℕ, ◌+◌, ◌*◌, List, [], ◌∷◌, leb, ◌==◌, if◌then◌else◌, Outcome, ok, fault, ◌>>=◌, ◌>>◌, assert,
  out_of_bounds,
}
use sflow.Memory.Endian.{Endian}
use sflow.ExpandingArray.{get}
use sflow.Source.Types.{Source, type_number, flowsample}
use sflow.Source.Registry.{Registry}
use sflow.Leaf.Flowsample.{get_sample_flowsample}
use sflow.Sender.{Sender, Moment, append_sample_to_send}

pub record Daemon : Type 0 where
  pub registry : Registry
  pub sender : Sender

-- What a pointer to a source points to, and a store through it; NULL points to nothing.
unfoldable pub load : ℕ → List (ℕ × Source) → Outcome Source
load address [] = fault out_of_bounds
load address ((a, src) ∷ rest) = if a == address then ok src else load address rest

unfoldable pub store : ℕ → Source → List (ℕ × Source) → List (ℕ × Source)
store address src [] = []
store address src ((a, old) ∷ rest) =
    if a == address then (a, src) ∷ rest else (a, old) ∷ store address src rest

-- `ss_get_sample` of a source whose type passes the assertion is get_sample_flowsample.
unfoldable pub handle_packet : Endian → List ℕ → Moment → ℕ → ℕ → ℕ → Daemon → Outcome Daemon
handle_packet e agent_ip now pkt len fd daemon = do
  address ← get daemon.registry.fd_sources fd
  source ← load address daemon.registry.all_sources
  assert (leb (type_number source.source_type) (type_number flowsample))
  (sample, source') ← get_sample_flowsample e (record source { count = source.count + 1 }) pkt len
  sender ← append_sample_to_send e agent_ip now sample daemon.sender
  ok (record {
    registry = record daemon.registry {
      all_sources = store address source' daemon.registry.all_sources;
    };
    sender = sender;
  })
