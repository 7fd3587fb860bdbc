-- ===== src/Sender/Enqueue.antt =====
-- The critical section of sflow_append_sample_to_send succeeds and keeps the sender's invariant.
use sflow.Common.{
  ℕ, ◌+◌, ◌≤◌, ◌≡◌, refl, sym, ap, ◌∙◌, subst, Bool, true, false, Bool-cases, inl, inr, List, [],
  ◌∷◌, ◌++◌, append_assoc, arith, ltb, ok,
}
use sflow.Common.Int.{pos, ◌+ℤ◌, pos-injective}
use sflow.Memory.Endian.{Endian}
use sflow.DataList.{Node, append}
use sflow.DataList.Laws.{Sizes, append-Sized}
use sflow.Protocol.FlowRecord.{Memory}
use sflow.Protocol.Sample.{Sample}
use sflow.Protocol.CounterSample.Pack.{contents}
use sflow.Sender.{Sender, over_mtu, Moment, arm, enqueue}
use sflow.Sender.Invariant.{concat, node_size, IsQueued, IsSender, All-snoc, queued_total}
use sflow.Sender.Steps.{send_samples-IsSent}

over_mtu_lem : (n k : ℕ) → n ≤ 1360 → k ≤ 1360 → over_mtu (pos n) (pos k) ≡ ltb 1360 (n + k)
unfolding over_mtu ◌+ℤ◌
over_mtu_lem n k hn hk = ground arith

contents-snoc :
    (xs : List (Node Sample)) (x : Node Sample)
    → contents (xs ++ x ∷ []) ≡ contents xs ++ x.content ∷ []
contents-snoc [] x = refl
contents-snoc (y ∷ ys) x = ap (◌∷◌ y.content) (contents-snoc ys x)

arm_off : (s : Sender) → s.armed ≡ false → arm s ≡ record s { armed = true; timer = true }
unfolding arm
arm_off s h = rw h

module _ (e : Endian) (agent_ip : List ℕ) (Sane : Memory → Type 0) where
  Inv : List Sample → Sender → Type 0
  Inv = IsSender e agent_ip Sane

  -- The alarm is no part of the invariant.
  pub with_alarm :
      (history : List Sample) (s : Sender) (armed timer : Bool)
      → IsSender e agent_ip Sane history s
      → IsSender e agent_ip Sane history (record s { armed = armed; timer = timer })
  with_alarm history s armed timer h = record {
    batches = h.batches;
    queue = h.queue;
    size = h.size;
    all = h.all;
    packets = h.packets;
    seq = h.seq;
    sized = h.sized;
    queued = h.queued;
    room = h.room;
  }

  pub arm-IsSender :
      (history : List Sample) (s : Sender)
      → IsSender e agent_ip Sane history s
      → IsSender e agent_ip Sane history (arm s)
  unfolding arm
  arm-IsSender history s h = elim (Bool-cases s.armed) [
    | inl t ↦ rw t (with_alarm history s true s.timer h)
    | inr t ↦ rw t (with_alarm history s true true h)
  ]

  -- Where there is room the node goes to the end of the buffer.
  push : Node Sample → Sender → Sender
  push x s = record s { buffered = append s.buffered x }

  push-IsSender :
      (history : List Sample) (s : Sender) (x : Node Sample)
      → (h : IsSender e agent_ip Sane history s) → IsQueued e agent_ip Sane x
      → h.size + node_size e x.content ≤ 1360
      → IsSender e agent_ip Sane (history ++ x.content ∷ []) (push x s)
  unfolding push
  push-IsSender history s x h hx room = record {
    batches = h.batches;
    queue = h.queue ++ x ∷ [];
    size = h.size + node_size e x.content;
    all =
        ap (λ xs. xs ++ x.content ∷ []) h.all
        ∙ append_assoc (concat h.batches) (contents h.queue) (x.content ∷ [])
        ∙ ap (◌++◌ (concat h.batches)) (sym (contents-snoc h.queue x));
    packets = h.packets;
    seq = h.seq;
    sized =
        append-Sized s.buffered h.queue x h.size (node_size e x.content) h.sized hx.size (
          omega
            (arith, h.room, queued_total e agent_ip Sane h.queue h.size h.queued h.sized.sizes));
    queued = All-snoc e agent_ip Sane h.queue x h.queued hx;
    room = room;
  }

  -- What the critical section leaves: an armed indicator stays armed, and the alarm is pending if it
  -- was pending whenever the indicator was armed.
  pub record IsEnqueued (history : List Sample) (s s' : Sender) : Type 0 where
    pub is_sender : IsSender e agent_ip Sane history s'
    pub armed : s.armed ≡ true → s'.armed ≡ true
    pub timer : (s.armed ≡ true → s.timer ≡ true) → s'.armed ≡ true → s'.timer ≡ true

  fits :
      (history : List Sample) (now : Moment) (x : Node Sample) (s : Sender)
      → (h : IsSender e agent_ip Sane history s) → (hx : IsQueued e agent_ip Sane x)
      → over_mtu s.buffered.data_size x.data_size ≡ ltb 1360 (h.size + node_size e x.content)
  fits history now x s h hx =
      rw (h.sized.total, hx.size) (over_mtu_lem h.size (node_size e x.content) h.room hx.fit.small)

  -- With an empty buffer there is room.
  pub enqueue_empty :
      (history : List Sample) (now : Moment) (x : Node Sample) (s : Sender)
      → IsSender e agent_ip Sane history s
      → IsQueued e agent_ip Sane x
      → s.buffered.items ≡ []
      → enqueue e agent_ip now x s ≡ ok (record s { buffered = append s.buffered x })
  unfolding enqueue
  enqueue_empty history now x s h hx none =
      let empty : h.size ≡ 0 =
        subst (λ (q : List (Node Sample)). Sizes q h.size) (sym h.sized.holds.items ∙ none)
          h.sized.sizes in
      rw (fits history now x s h hx, small h.size (node_size e x.content) empty hx.fit.small)
    where
      small : (n k : ℕ) → n ≡ 0 → k ≤ 1360 → ltb 1360 (n + k) ≡ false
      small n k hn hk = ground arith

  pub enqueue-IsEnqueued :
      (history : List Sample) (now : Moment) (x : Node Sample) (s : Sender)
      → IsSender e agent_ip Sane history s
      → Sane now.mem
      → IsQueued e agent_ip Sane x
      → (s' : Sender) × (enqueue e agent_ip now x s ≡ ok s')
        × IsEnqueued (history ++ x.content ∷ []) s s'
  unfolding enqueue push
  enqueue-IsEnqueued history now x s h sane hx =
      let fit = fits history now x s h hx in
      elim (Bool-cases (ltb 1360 (h.size + node_size e x.content))) [
        | inl more ↦
            let (s', e', sent) =
              send_samples-IsSent e agent_ip Sane history now (record s { timer = false })
                (with_alarm history s s.armed false h) sane in
            let flushed = with_alarm history s' true true sent.is_sender in
            let empty : 0 ≡ flushed.size =
              pos-injective (sym sent.buffered.total ∙ flushed.sized.total) in
            (
              push x (record s' { armed = true; timer = true }),
              rw (fit, more, e', arm_off s' sent.armed),
              record {
                is_sender =
                    push-IsSender history (record s' { armed = true; timer = true }) x flushed hx
                      (omega (arith, hx.fit.small));
                armed = λ _. refl;
                timer = λ _ _. refl;
              },
            )
        | inr less ↦ (
          push x s,
          rw (fit, less),
          record {
            is_sender = push-IsSender history s x h hx (ground arith);
            armed = λ t. t;
            timer = λ t. t;
          },
        )
      ]
