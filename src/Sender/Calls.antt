-- ===== src/Sender/Calls.antt =====
-- The calls of the sender, without other threads: the first state, sflow_append_sample_to_send and
-- the handler of the alarm.
use sflow.Common.{
  ℕ, ◌^◌, ◌<◌, ◌≡◌, refl, sym, ◌∙◌, subst, ◌⊎◌, true, false, Bool-cases, inl, inr, List, [], ◌∷◌,
  ◌++◌, arith, ok,
}
use sflow.Common.Int.{pos}
use sflow.Common.Text.{codes}
use sflow.Memory.Endian.{Endian}
use sflow.DataList.{Node, node_create, create}
use sflow.Protocol.FlowRecord.{Memory}
use sflow.Protocol.Sample.{Sample}
use sflow.Sender.{Sender, to_int, Moment, arm, sample_node, append_sample_to_send, on_alarm, init}
use sflow.Sender.Invariant.{node_size, IsFit, IsQueued, IsSender}
use sflow.Sender.Steps.{send_samples-IsSent}
use sflow.Sender.Enqueue.{arm-IsSender, with_alarm, enqueue-IsEnqueued, IsEnqueued}

true≢false : true ≡ false → ⊥
true≢false h = cc

initial : Sender
initial = record {
  armed = false;
  timer = false;
  seq = 0;
  buffered = record { name = codes "samples to send"; count = 0; data_size = pos 0; items = [] };
  sent = [];
}

module _ (e : Endian) (agent_ip : List ℕ) (Sane : Memory → Type 0) where
  -- The node that is made for a sample states its size.
  pub sample_node-IsQueued :
      (sp : Sample)
      → IsFit e agent_ip Sane sp
      → (x : Node Sample) × (sample_node e sp ≡ ok x)
        × IsQueued e agent_ip Sane x
        × (x.content ≡ sp)
  unfolding sample_node node_create
  sample_node-IsQueued sp fit = (
    record { name = codes "sample to send"; content = sp; data_size = pos (node_size e sp) },
    rw (small_int (node_size e sp) (omega (arith, fit.small))),
    record { fit = fit; size = refl },
    refl,
  )
    where
      small_int : (n : ℕ) → n < 2 ^ 31 → to_int n ≡ pos n
      small_int n h = ground arith

  arm-armed : (s : Sender) → (arm s).armed ≡ true
  unfolding arm
  arm-armed s = ground arith

  arm-timer : (s : Sender) → (s.armed ≡ true → s.timer ≡ true) → (arm s).timer ≡ true
  unfolding arm
  arm-timer s h = elim (Bool-cases s.armed) [ inl t ↦ rw t (h t) | inr t ↦ rw t ]

  -- The alarm is pending if the indicator is armed, and it is armed if anything is buffered.
  pub record IsWatched (s : Sender) : Type 0 where
    pub timer : (s.armed ≡ false) ⊎ (s.timer ≡ true)
    pub armed : (s.buffered.items ≡ []) ⊎ (s.armed ≡ true)

  watched_timer : (s : Sender) → IsWatched s → s.armed ≡ true → s.timer ≡ true
  watched_timer s watched t = elim watched.timer [
    | inl f ↦ absurd (true≢false (sym t ∙ f))
    | inr on ↦ on
  ]

  appended :
      (history : List Sample) (now : Moment) (sp : Sample) (s : Sender)
      → IsSender e agent_ip Sane history s
      → Sane now.mem
      → IsFit e agent_ip Sane sp
      → (s' : Sender) × (append_sample_to_send e agent_ip now sp s ≡ ok s')
        × IsEnqueued e agent_ip Sane (history ++ sp ∷ []) (arm s) s'
  unfolding append_sample_to_send
  appended history now sp s h sane fit =
      let (x, ex, hx, same) = sample_node-IsQueued sp fit in
      let (s', e', hs) =
        enqueue-IsEnqueued e agent_ip Sane history now x (arm s)
          (arm-IsSender e agent_ip Sane history s h) sane hx in
      (
        s',
        rw (ex, e'),
        subst (λ (y : Sample). IsEnqueued e agent_ip Sane (history ++ y ∷ []) (arm s) s') same hs,
      )

  -- On any state of the invariant, with a sane memory and a sample that a packet has room for,
  -- sflow_append_sample_to_send succeeds and keeps the invariant, with the sample as the last one
  -- of the history.
  pub append_sample_to_send-IsSender :
      (history : List Sample) (now : Moment) (sp : Sample) (s : Sender)
      → IsSender e agent_ip Sane history s
      → Sane now.mem
      → IsFit e agent_ip Sane sp
      → (s' : Sender) × (append_sample_to_send e agent_ip now sp s ≡ ok s')
        × IsSender e agent_ip Sane (history ++ sp ∷ []) s'
  append_sample_to_send-IsSender history now sp s h sane fit =
      let (s', e', hs) = appended history now sp s h sane fit in (s', e', hs.is_sender)

  -- If an alarm was pending for whatever was buffered, then after a call of
  -- sflow_append_sample_to_send that nothing interrupts, on a state of the invariant and with a
  -- sample that a packet has room for, the indicator is armed and an alarm is pending.
  pub append_sample_to_send-IsWatched :
      (history : List Sample) (now : Moment) (sp : Sample) (s : Sender)
      → IsSender e agent_ip Sane history s
      → Sane now.mem
      → IsFit e agent_ip Sane sp
      → IsWatched s
      → (s' : Sender) × (append_sample_to_send e agent_ip now sp s ≡ ok s')
        × (s'.armed ≡ true)
        × (s'.timer ≡ true)
  append_sample_to_send-IsWatched history now sp s h sane fit watched =
      let (s', e', hs) = appended history now sp s h sane fit in
      let armed = hs.armed (arm-armed s) in
      (s', e', armed, hs.timer (λ _. arm-timer s (watched_timer s watched)) armed)

  -- On any state of the invariant and with a sane memory, the handler of SIGALRM succeeds and
  -- keeps the invariant with the same history; the buffer is then empty, the indicator not armed,
  -- and the alarm watched.
  pub on_alarm-IsSender :
      (history : List Sample) (now : Moment) (s : Sender)
      → IsSender e agent_ip Sane history s
      → Sane now.mem
      → (s' : Sender) × (on_alarm e agent_ip now s ≡ ok s')
        × IsSender e agent_ip Sane history s'
        × (s'.buffered.items ≡ [])
        × (s'.armed ≡ false)
        × IsWatched s'
  unfolding on_alarm
  on_alarm-IsSender history now s h sane =
      let (s', e', sent) =
        send_samples-IsSent e agent_ip Sane history now (record s { timer = false })
          (with_alarm e agent_ip Sane history s s.armed false h) sane in
      (
        s',
        e',
        sent.is_sender,
        sent.buffered.holds.items,
        sent.armed,
        record { timer = inl sent.armed; armed = inl sent.buffered.holds.items },
      )

  pub init-IsSender : (s : Sender) × (init ≡ ok s) × IsSender e agent_ip Sane [] s × IsWatched s
  unfolding init create initial
  init-IsSender = (
    initial,
    refl,
    record {
      batches = [];
      queue = [];
      size = 0;
      all = refl;
      packets = tt;
      seq = refl;
      sized = record { holds = record { items = refl; count = refl }; sizes = refl; total = refl };
      queued = tt;
      room = omega arith;
    },
    record { timer = inl refl; armed = inl refl },
  )
