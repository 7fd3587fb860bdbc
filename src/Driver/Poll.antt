-- ===== src/Driver/Poll.antt =====
-- The thread of a polling source of sflow/sflow_driver.c: it takes a sample of its source every
-- interval. A round is what the system tells at its time; the thread ends when it is cancelled.
pub mod Laws
use sflow.Common.{ℕ, ◌+◌, List, [], ◌∷◌, ltb, Outcome, ok, fault, ◌>>=◌, ◌>>◌, assert, bad_cast}
use sflow.Memory.Endian.{Endian}
use sflow.Protocol.Sample.{Sample}
use sflow.Source.Types.{
  Source, SourceType, flowsample, inter_poll_separation, ifgeneric, phyhost, vhost, flowstat,
  type_number, as_poll,
}
use sflow.Leaf.Ifgeneric.{get_sample_ifgeneric}
use sflow.Leaf.Hostphy.{get_sample_hostphy}
use sflow.Leaf.Hostv.{get_sample_hostv}
use sflow.Leaf.Hostv.Zones.{ZoneCache}
use sflow.Leaf.Hostv.Packs.{ZoneSystem}
use sflow.Sender.{Moment, append_sample_to_send}
use sflow.Driver.{Daemon, load, store}

-- get_sample_flowstat, of a file that is not in the repository, is part of a round.
pub record Round : Type 0 where
  pub now : Moment
  pub zs : ZoneSystem
  pub get_sample_flowstat : Source → Outcome (Sample × Source)

-- The daemon and the cache of the zones
pub record PollState : Type 0 where
  pub daemon : Daemon
  pub cache : ZoneCache

-- A sample that leaves the cache alone
abbrev pub keeping : ZoneCache → Outcome (Sample × Source) → Outcome (Sample × Source × ZoneCache)
keeping cache (ok (sp, source)) = ok (sp, source, cache)
keeping cache (fault e) = fault e

-- `ss_get_sample` of a source, which its type decides; the other two types have none.
unfoldable pub get_sample :
    Endian → Round → SourceType → Source → ZoneCache → Outcome (Sample × Source × ZoneCache)
get_sample e round flowsample source cache = fault bad_cast
get_sample e round inter_poll_separation source cache = fault bad_cast
get_sample e round ifgeneric source cache =
    keeping cache (get_sample_ifgeneric e round.zs.kernel source)
get_sample e round phyhost source cache = keeping cache (get_sample_hostphy e round.zs.sys source)
get_sample e round vhost source cache = get_sample_hostv e round.zs source cache
get_sample e round flowstat source cache = keeping cache (round.get_sample_flowstat source)

-- The body of the loop, behind the sleep of `ss_interval` seconds
unfoldable pub poll_round : Endian → List ℕ → ℕ → Round → PollState → Outcome PollState
poll_round e agent_ip address round st = do
  src ← load address st.daemon.registry.all_sources
  ss_p ← as_poll src.kind
  (sample, src', cache) ← get_sample e round src.source_type src st.cache
  sender ← append_sample_to_send e agent_ip round.now sample st.daemon.sender
  ok (record {
    daemon = record {
      registry = record st.daemon.registry {
        all_sources = store address src' st.daemon.registry.all_sources;
      };
      sender = sender;
    };
    cache = cache;
  })

unfoldable pub poll_rounds : Endian → List ℕ → ℕ → List Round → PollState → Outcome PollState
poll_rounds e agent_ip address [] st = ok st
poll_rounds e agent_ip address (round ∷ rounds) st = do
  st' ← poll_round e agent_ip address round st
  poll_rounds e agent_ip address rounds st'

-- The thread until it is cancelled, after these rounds
unfoldable pub poll_thread : Endian → List ℕ → ℕ → List Round → PollState → Outcome PollState
poll_thread e agent_ip address rounds st = do
  src ← load address st.daemon.registry.all_sources
  assert (ltb (type_number flowsample) (type_number src.source_type))
  poll_rounds e agent_ip address rounds st
