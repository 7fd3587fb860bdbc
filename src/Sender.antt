-- ===== src/Sender.antt =====
-- sflow/sflow_sender.c, with the initial list of sflow/sflow_driver.c and its handler of SIGALRM.
-- What `sendto` is given is kept in `sent`, the oldest first; its result is only logged.
pub mod Invariant
pub mod Steps
pub mod Enqueue
pub mod Calls
pub mod Run
pub mod Alarm
use sflow.Common.{
  ℕ, ◌+◌, ◌-◌, ◌*◌, ◌%◌, ◌^◌, Bool, true, false, List, [], ◌∷◌, ◌++◌, ltb, if◌then◌else◌, Outcome,
  ok, ◌>>=◌,
}
use sflow.Common.Int.{ℤ, pos, negsuc, ◌+ℤ◌}
use sflow.Common.Text.{codes}
use sflow.Memory.Endian.{Endian, htonl}
use sflow.Memory.Layout.{psize}
use sflow.Memory.Buffer.{Buffer}
use sflow.DataList.{Node, DataList, node_create, create, append}
use sflow.Protocol.FlowRecord.{Memory}
use sflow.Protocol.Sample.{Sample}
use sflow.Protocol.Datagram.{sizeof_datagram, datagram_pack, datagram_flat}

-- SFLOW_MTU
abbrev pub mtu : ℕ
mtu = 1400

pub record Packet : Type 0 where
  pub size : ℕ
  pub bytes : Buffer

-- `armed` says that sflow_alarm_indicator is locked, `timer` that an alarm is pending. `seq` is
-- the static counter of sflow_datagram_pack.
pub record Sender : Type 0 where
  pub armed : Bool
  pub timer : Bool
  pub seq : ℕ
  pub buffered : DataList Sample
  pub sent : List Packet

-- sflow_init_data
unfoldable pub init : Outcome Sender
init = do
  fresh ← create Sample (codes "samples to send")
  ok (record { armed = false; timer = false; seq = 0; buffered = fresh; sent = [] })

-- The conversions from and to `int`, of 32 bits
abbrev pub to_int : ℕ → ℤ
to_int n = let m = n % 2 ^ 32 in if ltb m (2 ^ 31) then pos m else negsuc (2 ^ 32 - 1 - m)

abbrev pub to_size : ℤ → ℕ
to_size (pos n) = n % 2 ^ 64
to_size (negsuc n) = 2 ^ 64 - 1 - n

unfoldable pub over_mtu : ℤ → ℤ → Bool
over_mtu have size = ltb mtu ((to_size (have +ℤ size) + sizeof_datagram - psize) % 2 ^ 64)

-- What a call reads of the world around it: the memory, and get_up_time_sec
pub record Moment : Type 0 where
  pub mem : Memory
  pub up_time : ℕ

-- pthread_mutex_trylock(&sflow_alarm_indicator), and alarm(MAX_BUF_TIME) where it succeeds
unfoldable pub arm : Sender → Sender
arm s = if s.armed then s else record s { armed = true; timer = true }

module _ (e : Endian) where
  unfoldable pub sample_node : Sample → Outcome (Node Sample)
  sample_node sample =
      node_create (codes "sample to send") sample (to_int (htonl e sample.len + psize * 2))

  module _ (agent_ip : List ℕ) where
    unfoldable pub send_samples : Moment → Sender → Outcome Sender
    send_samples now s = do
      (dg, seq) ← datagram_pack e s.seq now.up_time agent_ip s.buffered
      (size, to_send) ← datagram_flat e now.mem dg
      fresh ← create Sample (codes "lsit to send in udp")
      ok (record s {
        armed = false;
        seq = seq;
        buffered = fresh;
        sent = s.sent ++ record { size = size; bytes = to_send } ∷ [];
      })

    -- The part of sflow_append_sample_to_send under sflow_buffered_samples_mtx
    unfoldable pub enqueue : Moment → Node Sample → Sender → Outcome Sender
    enqueue now node s = do
      room ←
          if over_mtu s.buffered.data_size node.data_size
          then (do sent ← send_samples now (record s { timer = false }); ok (arm sent))
          else ok s
      ok (record room { buffered = append room.buffered node })

    unfoldable pub append_sample_to_send : Moment → Sample → Sender → Outcome Sender
    append_sample_to_send now sample s = do
      let s' = arm s
      node ← sample_node sample
      enqueue now node s'

    -- SIGALRM: the alarm has gone off.
    unfoldable pub on_alarm : Moment → Sender → Outcome Sender
    on_alarm now s = send_samples now (record s { timer = false })
