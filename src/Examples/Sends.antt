-- ===== src/Examples/Sends.antt =====
-- The sender at concrete inputs.
use sflow.Common.{◌≡◌, refl, inr, true, false, List, [], ◌∷◌, ok}
use sflow.Memory.Endian.{little}
use sflow.Protocol.CounterSample.Pack.{contents}
use sflow.Sender.{Sender, append_sample_to_send, on_alarm}
use sflow.Sender.Invariant.{IsSender}
use sflow.Sender.Calls.{
  IsWatched, append_sample_to_send-IsSender, append_sample_to_send-IsWatched, on_alarm-IsSender,
}
use sflow.Sender.Run.{System, Event, start, finish, alarm, run, IsSystem, run-IsSystem}
use sflow.Sender.Alarm.{lost_alarm}
use sflow.Examples.Data.{
  agent, Any, now, parent_sample, parent_sample-IsFit, idle_sender, idle_sender-IsSender,
  busy_sender, busy_sender-IsSender,
}

abbrev idle_system : System
idle_system = record { sender = idle_sender; waiting = []; entered = [] }

idle_system-IsSystem : IsSystem little agent Any idle_system
idle_system-IsSystem = record { is_sender = idle_sender-IsSender; waiting = tt }

-- Two threads, the second of which overtakes the first, and the alarm between them.
abbrev two_threads : List Event
two_threads =
    start parent_sample ∷ start parent_sample ∷ finish 1 now ∷ alarm now ∷ finish 0 now ∷ []

run-IsSystem_example :
    (sys' : System) × (run little agent two_threads idle_system ≡ ok sys')
    × IsSystem little agent Any sys'
run-IsSystem_example =
    run-IsSystem little agent Any two_threads idle_system
      (parent_sample-IsFit, (parent_sample-IsFit, (tt, (tt, (tt, tt))))) idle_system-IsSystem

append_sample_to_send-IsSender_example :
    (s' : Sender) × (append_sample_to_send little agent now parent_sample busy_sender ≡ ok s')
    × IsSender little agent Any (parent_sample ∷ parent_sample ∷ []) s'
append_sample_to_send-IsSender_example =
    append_sample_to_send-IsSender little agent Any (parent_sample ∷ []) now parent_sample
      busy_sender busy_sender-IsSender tt parent_sample-IsFit

append_sample_to_send-IsWatched_example :
    (s' : Sender) × (append_sample_to_send little agent now parent_sample busy_sender ≡ ok s')
    × (s'.armed ≡ true)
    × (s'.timer ≡ true)
append_sample_to_send-IsWatched_example =
    append_sample_to_send-IsWatched little agent Any (parent_sample ∷ []) now parent_sample
      busy_sender busy_sender-IsSender tt parent_sample-IsFit
      (record { timer = inr refl; armed = inr refl })

on_alarm-IsSender_example :
    (s' : Sender) × (on_alarm little agent now busy_sender ≡ ok s')
    × IsSender little agent Any (parent_sample ∷ []) s'
    × (s'.buffered.items ≡ [])
    × (s'.armed ≡ false)
    × IsWatched little agent Any s'
on_alarm-IsSender_example =
    on_alarm-IsSender little agent Any (parent_sample ∷ []) now busy_sender busy_sender-IsSender tt

lost_alarm_example :
    (sys' : System) × (run little agent
        (start parent_sample ∷ alarm now ∷ finish 0 now ∷ [])
        idle_system
      ≡ ok sys')
    × (contents sys'.sender.buffered.items ≡ parent_sample ∷ [])
    × (sys'.sender.armed ≡ false)
lost_alarm_example =
    lost_alarm little agent Any idle_system parent_sample now now idle_system-IsSystem refl
      parent_sample-IsFit tt
