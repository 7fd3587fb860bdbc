-- ===== src/Examples/Polls.antt =====
-- The thread of a polling source, and what is shown of the sources, at concrete inputs.
use sflow.Common.{
  ◌≡◌, refl, true, inl, inr, List, [], ◌∷◌, arith, length, none, ok, fault, bad_cast,
}
use sflow.Common.Text.{codes}
use sflow.Memory.Endian.{little}
use sflow.Protocol.Sample.{Sample}
use sflow.Source.Registry.{Registry}
use sflow.Driver.{load}
use sflow.Driver.Poll.{Round, PollState, poll_thread}
use sflow.Driver.Poll.Laws.{IsReady, poll_thread-IsSender}
use sflow.Sender.Invariant.{IsSender}
use sflow.Leaf.Hostv.Zones.{opened}
use sflow.Examples.Data.{
  agent, Any, now, tap, link_source, stats, link_counters, link_source-Reports, idle_sender,
  idle_sender-IsSender,
}
use sflow.Examples.Hosts.{host}
use sflow.Examples.Sources.{table, table-IsFdTable, no_tab, flow_source-IsTap}
use sflow.Protocol.Sequence.{All}
use sflow.Source.Text.Laws.{without_blanks}
use sflow.Source.Remove.{type_of, filter_of, remove_source}
use sflow.Source.Remove.Laws.{is_set}
use sflow.Source.Show.{SourceFields, show_src}
use sflow.Source.Show.Entries.{IsShown}
use sflow.Source.Show.Laws.{
  AreEntries, shown, asked, reply_of, show_src-shown, show_src-remove_source,
}

abbrev round : Round
round = record {
  now = now;
  zs = record {
    sys = record host { kernel = stats };
    attributes = λ zone_id. record { status = none; vcpus = none; phys_mcap = none };
    zone_links = λ zone_id. none;
    zone_count = 0;
    cpu_moment = record { now = 0; zs = opened none };
    cpu_again = record { now = 0; zs = opened none };
    memory_moment = record { now = 0; zs = opened none };
    memory_again = record { now = 0; zs = opened none };
  };
  get_sample_flowstat = λ source. fault bad_cast;
}

abbrev polling : PollState
polling = record {
  daemon = record {
    registry = record table { all_sources = (8192, link_source) ∷ [] };
    sender = idle_sender;
  };
  cache = record { zone_list = none; zone_num = 0; stamp = 0 };
}

round-IsReady : IsReady little agent Any link_source round
round-IsReady = (tt, inl (2, link_counters, refl, refl, link_source-Reports))

polling-loads : load 8192 polling.daemon.registry.all_sources ≡ ok link_source
unfolding load
polling-loads = refl

poll_thread-IsSender_example :
    (sps : List Sample) × (st' : PollState) × (poll_thread little agent 8192
        (round ∷ round ∷ [])
        polling
      ≡ ok st')
    × (length sps ≡ 2)
    × (load 8192 st'.daemon.registry.all_sources ≡ ok (record link_source { count = 10 }))
    × IsSender little agent Any sps st'.daemon.sender
poll_thread-IsSender_example =
    poll_thread-IsSender little agent Any (round ∷ round ∷ []) [] 8192 link_source
      (record { thread = 1; interval = 20 }) polling refl refl (round-IsReady, (round-IsReady, tt))
      polling-loads idle_sender-IsSender

table-IsShown : All IsShown table.all_sources
table-IsShown = (inr (tap, refl, omega arith, refl), tt)

all_types : is_set (asked (codes "all")) ≡ true
unfolding filter_of type_of
all_types = refl

show_src-shown_example :
    (fs : List SourceFields) × (show_src (codes "net0") (codes "all") table ≡ ok (reply_of fs))
    × AreEntries fs (shown (asked (codes "all")) (without_blanks (codes "net0")) table.all_sources)
show_src-shown_example =
    show_src-shown (codes "net0") (codes "all") table (no_tab (codes "net0") refl)
      (no_tab (codes "all") refl) all_types table-IsShown

show_src-remove_source_example :
    (r' : Registry) × (remove_source (λ thread. 0) (codes "net0") (codes "all") table ≡ ok r')
    × (show_src (codes "net0") (codes "all") r' ≡ ok (reply_of []))
show_src-remove_source_example =
    show_src-remove_source (λ thread. 0) (codes "net0") (codes "all") table
      (no_tab (codes "net0") refl) (no_tab (codes "all") refl) all_types table-IsFdTable
      (inl (tap, flow_source-IsTap), tt) table-IsShown
