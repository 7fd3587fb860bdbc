-- ===== src/Sender/Steps.antt =====
-- Each operation of the sender succeeds and keeps its invariant.
use sflow.Common.{
  ℕ, ◌+◌, ◌*◌, ◌≡◌, refl, sym, ap, ◌∙◌, false, List, [], ◌∷◌, ◌++◌, append-nil, arith, length,
  length-append, ok,
}
use sflow.Common.Int.{pos}
use sflow.Common.Text.{codes}
use sflow.Memory.Endian.{Endian}
use sflow.DataList.{Node, DataList, create}
use sflow.DataList.Laws.{Sizes, Sized}
use sflow.Protocol.FlowRecord.{Memory}
use sflow.Protocol.Sample.{Sample}
use sflow.Protocol.Sample.Bytes.{sample_bytes}
use sflow.Protocol.Sequence.{All, bytes_of}
use sflow.Protocol.CounterSample.Pack.{contents}
use sflow.Protocol.Datagram.Bytes.{samples_total}
use sflow.Protocol.Datagram.Pack.{wire, wire_head, length-wire_head, datagram_flat-datagram_pack}
use sflow.Sender.{Packet, Sender, Moment, send_samples}
use sflow.Sender.Invariant.{
  concat, concat-append, IsQueued, IsSender, ArePackets-append, queued-IsSample, queued_total,
}

module _ (e : Endian) (agent_ip : List ℕ) (Sane : Memory → Type 0) where
  -- The packet of what is buffered is within the MTU.
  pub length-wire :
      (now : Moment) (seq : ℕ) (xs : List (Node Sample)) (n : ℕ)
      → Sane now.mem
      → All (IsQueued e agent_ip Sane) xs
      → Sizes xs n
      → length (wire e now.mem seq now.up_time agent_ip (contents xs)) + 8 * length xs ≡ 28 + n
  length-wire now seq xs n sane h hn = omega (
    arith,
    length-append (wire_head seq now.up_time agent_ip (length (contents xs)))
        (bytes_of (sample_bytes e now.mem) (contents xs)),
    length-wire_head seq now.up_time agent_ip (length (contents xs)),
    samples_total e now.mem (contents xs) (queued-IsSample e agent_ip Sane now.mem xs sane h),
    queued_total e agent_ip Sane xs n h hn,
  )

  -- After `send_samples` the buffer is empty, the indicator unlocked and nothing else has changed.
  pub record IsSent (history : List Sample) (s s' : Sender) : Type 0 where
    pub is_sender : IsSender e agent_ip Sane history s'
    pub armed : s'.armed ≡ false
    pub timer : s'.timer ≡ s.timer
    pub buffered : Sized s'.buffered [] 0

  pub send_samples-IsSent :
      (history : List Sample) (now : Moment) (s : Sender)
      → IsSender e agent_ip Sane history s
      → Sane now.mem
      → (s' : Sender) × (send_samples e agent_ip now s ≡ ok s') × IsSent history s s'
  unfolding send_samples create
  send_samples-IsSent history now s h sane =
      let xs = contents h.queue in
      let bytes = wire e now.mem s.seq now.up_time agent_ip xs in
      let within = length-wire now s.seq h.queue h.size sane h.queued h.sized.sizes in
      let room = h.room in
      let (dg, e_pack, e_flat) =
        datagram_flat-datagram_pack e s.seq now.up_time agent_ip now.mem s.buffered h.queue
          h.sized.holds (queued-IsSample e agent_ip Sane now.mem h.queue sane h.queued)
          (omega (arith, within, room)) in
      let fresh : DataList Sample = record {
        name = codes "lsit to send in udp";
        count = 0;
        data_size = pos 0;
        items = [];
      } in
      let packet : Packet = record { size = length bytes; bytes = bytes } in
      let empty : Sized fresh [] 0 = record {
        holds = record { items = refl; count = refl };
        sizes = refl;
        total = refl;
      } in
      (
        record s { armed = false; seq = s.seq + 1; buffered = fresh; sent = s.sent ++ packet ∷ [] },
        rw (e_pack, e_flat),
        record {
          is_sender = record {
            batches = h.batches ++ xs ∷ [];
            queue = [];
            size = 0;
            all =
                h.all
                ∙ sym (append-nil (concat (h.batches ++ xs ∷ [])) ∙ concat-append h.batches xs);
            packets =
                ArePackets-append e agent_ip Sane 0 s.sent h.batches packet xs h.packets (record {
                  now = now;
                  sane = sane;
                  bytes =
                      ap (λ (k : ℕ). wire e now.mem k now.up_time agent_ip xs)
                        (h.seq ∙ omega arith);
                  size = refl;
                  within = omega (arith, within, room);
                });
            seq = omega (arith, h.seq, length-append h.batches (xs ∷ []));
            sized = empty;
            queued = tt;
            room = omega arith;
          };
          armed = refl;
          timer = refl;
          buffered = empty;
        },
      )
