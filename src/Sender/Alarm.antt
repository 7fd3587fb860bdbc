-- ===== src/Sender/Alarm.antt =====
-- The try on sflow_alarm_indicator stands before the critical section, and so the alarm can go off
-- between the two.
use sflow.Common.{ℕ, ◌≡◌, ap, false, List, [], ◌∷◌, ◌++◌, ok}
use sflow.Memory.Endian.{Endian}
use sflow.DataList.{append}
use sflow.Protocol.FlowRecord.{Memory}
use sflow.Protocol.Sample.{Sample}
use sflow.Protocol.CounterSample.Pack.{contents}
use sflow.Sender.{Moment, arm}
use sflow.Sender.Invariant.{IsFit}
use sflow.Sender.Enqueue.{arm-IsSender, enqueue_empty}
use sflow.Sender.Calls.{sample_node-IsQueued, on_alarm-IsSender}
use sflow.Sender.Run.{System, start, finish, alarm, step, run, IsSystem}

module _ (e : Endian) (agent_ip : List ℕ) (Sane : Memory → Type 0) where
  -- From any state of the invariant in which no thread is between the try on sflow_alarm_indicator
  -- and the lock: if the alarm is handled while a thread with a sample that a packet has room for
  -- is there, then after its critical section the sample is alone in the buffer and the indicator
  -- is not armed.
  pub lost_alarm :
      (sys : System) (sample : Sample) (now later : Moment)
      → IsSystem e agent_ip Sane sys
      → sys.waiting ≡ []
      → IsFit e agent_ip Sane sample
      → Sane now.mem
      → (sys' : System) × (run e agent_ip (start sample ∷ alarm now ∷ finish 0 later ∷ []) sys
          ≡ ok sys')
        × (contents sys'.sender.buffered.items ≡ sample ∷ [])
        × (sys'.sender.armed ≡ false)
  unfolding run step append
  lost_alarm sys sample now later h idle fit sane =
      let (x, ex, hx, same) = sample_node-IsQueued e agent_ip Sane sample fit in
      let (s', e', hs, empty, off, _) =
        on_alarm-IsSender e agent_ip Sane sys.entered now (arm sys.sender)
          (arm-IsSender e agent_ip Sane sys.entered sys.sender h.is_sender) sane in
      let room = enqueue_empty e agent_ip Sane sys.entered later x s' hs hx empty in
      (
        record {
          sender = record s' { buffered = append s'.buffered x };
          waiting = [];
          entered = sys.entered ++ x.content ∷ [];
        },
        rw (ex, e', idle) (rw room),
        rw empty (ap (λ y. y ∷ []) same),
        off,
      )
