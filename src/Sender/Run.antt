-- ===== src/Sender/Run.antt =====
-- The sender with several threads: between the try on sflow_alarm_indicator and the critical
-- section of sflow_append_sample_to_send other threads may run. `waiting` are the nodes of the
-- threads between the two, and `entered` the samples in the order of their critical sections.
use sflow.Common.{
  ℕ, zero, suc, ◌≡◌, refl, subst, List, [], ◌∷◌, ◌++◌, get_elem?, Option, none, some, Option-cases,
  inl, inr, Outcome, ok, ◌>>=◌,
}
use sflow.Memory.Endian.{Endian}
use sflow.DataList.{Node}
use sflow.Protocol.FlowRecord.{Memory}
use sflow.Protocol.Sample.{Sample}
use sflow.Protocol.Sequence.{All}
use sflow.Sender.{Sender, Moment, arm, sample_node, enqueue, on_alarm}
use sflow.Sender.Invariant.{IsFit, IsQueued, IsSender, All-snoc}
use sflow.Sender.Enqueue.{arm-IsSender, enqueue-IsEnqueued}
use sflow.Sender.Calls.{sample_node-IsQueued, on_alarm-IsSender}

pub record System : Type 0 where
  pub sender : Sender
  pub waiting : List (Node Sample)
  pub entered : List Sample

-- A thread begins a call; the thread of a node takes the lock, which does nothing if there is no
-- such thread; the alarm's signal is handled, also one that was sent before it was cancelled.
pub data Event : Type 0 where
  start : Sample → Event
  finish : ℕ → Moment → Event
  alarm : Moment → Event

abbrev pub remove : {A : Type 0} → List A → ℕ → List A
remove [] i = []
remove (x ∷ xs) zero = xs
remove (x ∷ xs) (suc i) = x ∷ remove xs i

module _ (e : Endian) (agent_ip : List ℕ) where
  enter : Moment → ℕ → Option (Node Sample) → System → Outcome System
  enter now i none sys = ok sys
  enter now i (some node) sys = do
    sender ← enqueue e agent_ip now node sys.sender
    ok (record {
      sender = sender;
      waiting = remove sys.waiting i;
      entered = sys.entered ++ node.content ∷ [];
    })

  unfoldable pub step : Event → System → Outcome System
  unfolding enter
  step (start sample) sys = do
    node ← sample_node e sample
    ok (record sys { sender = arm sys.sender; waiting = sys.waiting ++ node ∷ [] })
  step (finish i now) sys = enter now i (get_elem? sys.waiting i) sys
  step (alarm now) sys = do
    sender ← on_alarm e agent_ip now sys.sender
    ok (record sys { sender = sender })

  unfoldable pub run : List Event → System → Outcome System
  run [] sys = ok sys
  run (event ∷ events) sys = do sys' ← step event sys; run events sys'

remove-All :
    {A : Type 0} (P : A → Type 0) (xs : List A) (i : ℕ) (x : A)
    → All P xs
    → get_elem? xs i ≡ some x
    → P x × All P (remove xs i)
remove-All P [] i x h ex = absurd (none≢some ex)
  where
    none≢some : none ≡ some x → ⊥
    none≢some h = cc
remove-All P (y ∷ ys) zero x (hy, h) ex = (subst P (some-injective ex) hy, h)
  where
    some-injective : some y ≡ some x → y ≡ x
    some-injective h = cc
remove-All P (y ∷ ys) (suc i) x (hy, h) ex =
    let (hx, rest) = remove-All P ys i x h ex in (hx, (hy, rest))

module _ (e : Endian) (agent_ip : List ℕ) (Sane : Memory → Type 0) where
  -- The events that the theorems are about: fit samples, and memories that the program may have
  abbrev pub IsEvent : Event → Type 0
  IsEvent (start sample) = IsFit e agent_ip Sane sample
  IsEvent (finish i now) = Sane now.mem
  IsEvent (alarm now) = Sane now.mem

  pub record IsSystem (sys : System) : Type 0 where
    pub is_sender : IsSender e agent_ip Sane sys.entered sys.sender
    pub waiting : All (IsQueued e agent_ip Sane) sys.waiting

  step-IsSystem :
      (event : Event) (sys : System)
      → IsEvent event
      → IsSystem sys
      → (sys' : System) × (step e agent_ip event sys ≡ ok sys') × IsSystem sys'
  unfolding step
  step-IsSystem (start sample) sys fit h =
      let (x, ex, hx, same) = sample_node-IsQueued e agent_ip Sane sample fit in
      (
        record sys { sender = arm sys.sender; waiting = sys.waiting ++ x ∷ [] },
        rw ex,
        record {
          is_sender = arm-IsSender e agent_ip Sane sys.entered sys.sender h.is_sender;
          waiting = All-snoc e agent_ip Sane sys.waiting x h.waiting hx;
        },
      )
  step-IsSystem (finish i now) sys sane h = elim (Option-cases (get_elem? sys.waiting i)) [
    | inl t ↦ (sys, rw t, h)
    | inr (x, t) ↦
        let (hx, rest) = remove-All (IsQueued e agent_ip Sane) sys.waiting i x h.waiting t in
        let (s', e', hs) =
          enqueue-IsEnqueued e agent_ip Sane sys.entered now x sys.sender h.is_sender sane hx in
        (
          record {
            sender = s';
            waiting = remove sys.waiting i;
            entered = sys.entered ++ x.content ∷ [];
          },
          rw (t, e'),
          record { is_sender = hs.is_sender; waiting = rest },
        )
  ]
  step-IsSystem (alarm now) sys sane h =
      let (s', e', hs, _, _, _) =
        on_alarm-IsSender e agent_ip Sane sys.entered now sys.sender h.is_sender sane in
      (record sys { sender = s' }, rw e', record { is_sender = hs; waiting = h.waiting })

  -- In the model of the threads of the sender, for samples that a packet has room for and memories
  -- in which they stay readable, every sequence of calls begun, critical sections and alarms
  -- succeeds from a state of the invariant and ends in one: every packet is at most 1400 bytes and
  -- the wire form of its samples, the packets are numbered in turn, and packets and buffer
  -- together hold the samples in the order of the critical sections, each once.
  pub run-IsSystem :
      (events : List Event) (sys : System)
      → All IsEvent events
      → IsSystem sys
      → (sys' : System) × (run e agent_ip events sys ≡ ok sys') × IsSystem sys'
  unfolding run
  run-IsSystem [] sys fine h = (sys, refl, h)
  run-IsSystem (event ∷ events) sys (hv, fine) h =
      let (mid, em, hm) = step-IsSystem event sys hv h in
      let (last, el, hl) = run-IsSystem events mid fine hm in (last, rw em el, hl)
