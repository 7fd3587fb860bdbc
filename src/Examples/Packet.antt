-- ===== src/Examples/Packet.antt =====
-- A packet that the interrupt thread reads, at a concrete input.
use sflow.Common.{
  ◌*◌, ◌%◌, ◌^◌, ℕ, ◌≡◌, ◌==◌, ap, refl, arith, Bool, true, false, ◌⊎◌, List, [], ◌∷◌, length,
  Option, none, some, sum_below, ok,
}
use sflow.Memory.Endian.{little}
use sflow.ExpandingArray.Laws.{lookup}
use sflow.Protocol.Sample.{Sample}
use sflow.Source.Types.{Source}
use sflow.Source.Registry.Laws.{IsFdTable}
use sflow.Leaf.Flowsample.{get_sample_flowsample}
use sflow.Leaf.Flowsample.Laws.{IsFlowsample}
use sflow.Leaf.Fit.{HasBuffer}
use sflow.Sender.Invariant.{IsSender}
use sflow.Driver.{Daemon, load, handle_packet}
use sflow.Driver.Laws.{HasTap, handle_packet-IsSender}
use sflow.Driver.Interrupts.{readable, interrupt_round}
use sflow.Driver.Interrupts.Laws.{packets_of, IsRound, interrupt_round-IsSender}
use sflow.Examples.Data.{
  agent, memory-size, now, tap, tap_data, flow_source, flow_source-IsFlowsample, idle_sender,
}
use sflow.Examples.Sources.{table, table-IsFdTable}

abbrev daemon : Daemon
daemon = record { registry = table; sender = idle_sender }

idle-IsSender : IsSender little agent (HasBuffer 0) [] idle_sender
idle-IsSender = record {
  batches = [];
  queue = [];
  size = 0;
  all = refl;
  packets = tt;
  seq = refl;
  sized = record { holds = record { items = refl; count = refl }; sizes = refl; total = refl };
  queued = tt;
  room = omega arith;
}

loaded : load 4096 table.all_sources ≡ ok flow_source
unfolding load
loaded = refl

handle_packet-IsSender_example :
    (sp : Sample) × (source' : Source) × (daemon' : Daemon) × (handle_packet little agent now 0 1514
        5 daemon
      ≡ ok daemon')
    × (get_sample_flowsample little (record flow_source { count = 4 }) 0 1514 ≡ ok (sp, source'))
    × IsSender little agent (HasBuffer 0) (sp ∷ []) daemon'.sender
    × (load (lookup daemon'.registry.fd_sources 5) daemon'.registry.all_sources ≡ ok source')
    × IsFlowsample source' tap (record tap_data { pool = 4 * 100 % 2 ^ 32 })
    × (source'.count ≡ 4)
handle_packet-IsSender_example =
    handle_packet-IsSender little agent daemon [] now 0 1514 5 flow_source tap tap_data
      table-IsFdTable refl loaded refl flow_source-IsFlowsample idle-IsSender (memory-size 0)
      (omega arith)

-- The round in which descriptor 5 has a packet
abbrev one_ready : ℕ → Bool
one_ready fd = fd == 5

abbrev lens : ℕ → Option ℕ
lens fd = some 1514

only_tap : (fd : ℕ) → table.to_watch fd ≡ true → HasTap daemon fd
only_tap fd on =
    let five : fd ≡ 5 = ground (arith, on) in
    rw five (flow_source, tap, tap_data, loaded, refl, flow_source-IsFlowsample)

one-IsRound : IsRound little agent 0 [] daemon one_ready lens (λ fd. now)
one-IsRound = record {
  table = table-IsFdTable;
  taps = only_tap;
  watched = λ fd on. on;
  buffer = λ fd. memory-size 0;
  small =
      λ fd len e. omega (arith, ap {B = ℕ} (λ (o : Option ℕ). elim o [ none ↦ 0 | some n ↦ n ]) e);
}

interrupt_round-IsSender_example :
    (sps : List Sample) × (daemon' : Daemon) × (interrupt_round little agent 0
        (readable one_ready lens (λ fd. now))
        daemon
      ≡ ok daemon')
    × (length sps ≡ sum_below 6 (packets_of one_ready lens))
    × IsSender little agent (HasBuffer 0) sps daemon'.sender
    × IsFdTable daemon'.registry
    × ((fd : ℕ) → (daemon'.registry.to_watch fd ≡ false) ⊎ HasTap daemon' fd)
interrupt_round-IsSender_example =
    interrupt_round-IsSender little agent 0 [] daemon one_ready lens (λ fd. now) one-IsRound 5 refl
      idle-IsSender
