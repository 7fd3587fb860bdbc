-- ===== src/Sender/Invariant.antt =====
-- The sender's invariant: every sample that was appended is in exactly one packet or in the
-- buffer, in the order of the calls; every packet is the wire form of its samples and keeps
-- within the MTU; the buffer's size field is right and leaves a packet's worth of room.
use sflow.Common.{
  ℕ, suc, ◌+◌, ◌*◌, ◌≤◌, ◌≡◌, sym, ap, ◌∙◌, subst, List, [], ◌∷◌, ◌++◌, append_assoc, append-nil,
  arith, length,
}
use sflow.Common.Int.{pos, pos-injective}
use sflow.Memory.Endian.{Endian, htonl}
use sflow.DataList.{Node}
use sflow.DataList.Laws.{Sizes, Sized}
use sflow.Protocol.FlowRecord.{Memory}
use sflow.Protocol.Sample.{Sample}
use sflow.Protocol.Sample.Bytes.{IsSample}
use sflow.Protocol.Sequence.{All, total}
use sflow.Protocol.CounterSample.Pack.{contents}
use sflow.Protocol.Datagram.{sample_size}
use sflow.Protocol.Datagram.Pack.{wire}
use sflow.Sender.{mtu, Packet, Sender, Moment}

-- The samples of the packets, then those in the buffer
abbrev pub concat : List (List Sample) → List Sample
concat [] = []
concat (xs ∷ batches) = xs ++ concat batches

pub concat-append :
    (batches : List (List Sample)) (xs : List Sample)
    → concat (batches ++ xs ∷ []) ≡ concat batches ++ xs
concat-append [] xs = append-nil xs
concat-append (ys ∷ batches) xs =
    ap (◌++◌ ys) (concat-append batches xs) ∙ sym (append_assoc ys (concat batches) xs)

-- The size that the buffer accounts a sample with
abbrev pub node_size : Endian → Sample → ℕ
node_size e sp = htonl e sp.len + 16

-- `Sane` are the memories that the program may have while it runs: what a sample points to stays
-- allocated.
module _ (e : Endian) (agent_ip : List ℕ) (Sane : Memory → Type 0) where
  -- A sample that every such memory makes well formed, and that a packet has room for.
  pub record IsFit (sp : Sample) : Type 0 where
    pub is_sample : (mem : Memory) → Sane mem → IsSample e mem sp
    pub small : node_size e sp ≤ 1360

  -- A node of the buffer
  pub record IsQueued (x : Node Sample) : Type 0 where
    pub fit : IsFit x.content
    pub size : x.data_size ≡ pos (node_size e x.content)

  -- A packet is the wire form of its samples, with the memory and the time when it was sent.
  pub record IsPacket (seq : ℕ) (p : Packet) (xs : List Sample) : Type 0 where
    pub now : Moment
    pub sane : Sane now.mem
    pub bytes : p.bytes ≡ wire e now.mem seq now.up_time agent_ip xs
    pub size : p.size ≡ length p.bytes
    pub within : p.size ≤ mtu

  abbrev pub ArePackets : ℕ → List Packet → List (List Sample) → Type 0
  ArePackets seq [] [] = Unit {0}
  ArePackets seq [] (xs ∷ batches) = ⊥
  ArePackets seq (p ∷ ps) [] = ⊥
  ArePackets seq (p ∷ ps) (xs ∷ batches) = IsPacket seq p xs × ArePackets (suc seq) ps batches

  pub record IsSender (history : List Sample) (s : Sender) : Type 0 where
    pub batches : List (List Sample)
    pub queue : List (Node Sample)
    pub size : ℕ
    pub all : history ≡ concat batches ++ contents queue
    pub packets : ArePackets 0 s.sent batches
    pub seq : s.seq ≡ length batches
    pub sized : Sized s.buffered queue size
    pub queued : All IsQueued queue
    pub room : size ≤ 1360

  pub ArePackets-append :
      (seq : ℕ) (ps : List Packet) (batches : List (List Sample)) (p : Packet) (xs : List Sample)
      → ArePackets seq ps batches
      → IsPacket (seq + length batches) p xs
      → ArePackets seq (ps ++ p ∷ []) (batches ++ xs ∷ [])
  ArePackets-append seq [] [] p xs h hp = (subst (λ (n : ℕ). IsPacket n p xs) (omega arith) hp, tt)
  ArePackets-append seq [] (ys ∷ batches) p xs h hp = absurd h
  ArePackets-append seq (q ∷ ps) [] p xs h hp = absurd h
  ArePackets-append seq (q ∷ ps) (ys ∷ batches) p xs (hq, h) hp = (
    hq,
    ArePackets-append (suc seq) ps batches p xs h
        (subst (λ (n : ℕ). IsPacket n p xs) (omega arith) hp),
  )

  pub All-snoc :
      (xs : List (Node Sample)) (x : Node Sample)
      → All IsQueued xs
      → IsQueued x
      → All IsQueued (xs ++ x ∷ [])
  All-snoc [] x h hx = (hx, tt)
  All-snoc (y ∷ ys) x (hy, h) hx = (hy, All-snoc ys x h hx)

  pub queued-IsSample :
      (mem : Memory) (xs : List (Node Sample))
      → Sane mem
      → All IsQueued xs
      → All (IsSample e mem) (contents xs)
  queued-IsSample mem [] sane h = tt
  queued-IsSample mem (x ∷ xs) sane (hx, h) =
      (hx.fit.is_sample mem sane, queued-IsSample mem xs sane h)

  -- A sample needs 8 bytes less than it is accounted with.
  pub queued_total :
      (xs : List (Node Sample)) (n : ℕ)
      → All IsQueued xs
      → Sizes xs n
      → total (sample_size e) (contents xs) + 8 * length xs ≡ n
  queued_total [] n h hn = omega (arith, hn)
  queued_total (x ∷ xs) n (hx, h) (k, m, ek, hm, en) =
      omega (arith, queued_total xs m h hm, pos-injective (sym ek ∙ hx.size))
