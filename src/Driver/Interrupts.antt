-- ===== src/Driver/Interrupts.antt =====
-- The round of the interrupt thread of sflow/sflow_driver.c over the watched descriptors. The
-- thread holds the lock of the registry from `select` to the end of the round.
pub mod Laws
use sflow.Common.{ℕ, ◌+◌, List, Bool, true, false, Option, none, some, Outcome, ok, for_range}
use sflow.Memory.Endian.{Endian}
use sflow.Sender.{Moment}
use sflow.Driver.{Daemon, handle_packet}

-- What select returns: -1, 0, or a set of descriptors that have data, with what `read` gives for
-- each, `none` where it is negative, and the moment behind it.
pub data Selected : Type 0 where
  failed timed_out : Selected
  readable : (ℕ → Bool) → (ℕ → Option ℕ) → (ℕ → Moment) → Selected

module _ (e : Endian) (agent_ip : List ℕ) (pkt : ℕ) where
  -- The body of the loop over the descriptors
  unfoldable pub read_one : (ℕ → Bool) → (ℕ → Option ℕ) → (ℕ → Moment) → ℕ → Daemon → Outcome Daemon
  read_one to_read lens now fd daemon = elim (to_read fd) [
    | false ↦ ok daemon
    | true ↦ elim (lens fd) [
      | none ↦ ok daemon
      | some len ↦ handle_packet e agent_ip (now fd) pkt len fd daemon
    ]
  ]

  unfoldable pub on_selected : ℕ → Selected → Daemon → Outcome Daemon
  unfolding read_one
  on_selected maxfd failed daemon = ok daemon
  on_selected maxfd timed_out daemon = ok daemon
  on_selected maxfd (readable to_read lens now) daemon =
      for_range (maxfd + 1) 0 (read_one to_read lens now) daemon

  -- One round of the thread; where maxfd is -1 it only sleeps.
  unfoldable pub interrupt_round : Selected → Daemon → Outcome Daemon
  unfolding on_selected
  interrupt_round selected daemon = elim daemon.registry.maxfd [
    | none ↦ ok daemon
    | some maxfd ↦ on_selected maxfd selected daemon
  ]
