-- ===== src/Examples/Data.antt =====
-- Test data: a little-endian machine, a flow source and a link source, a sample, and senders.
use sflow.Common.{
  ℕ, ◌≤◌, refl, true, false, ◌||◌, if◌then◌else◌, Option, List, [], ◌∷◌, arith, length,
  length-replicate, replicate, some, none,
}
use sflow.Common.Int.{pos}
use sflow.Common.Text.{codes}
use sflow.Memory.Endian.{little, htonl, image}
use sflow.Memory.Layout.{struct_image, field_image}
use sflow.DataList.{Node}
use sflow.DataList.Laws.{Sized}
use sflow.Protocol.Format.{get_data_ent, get_data_fmt}
use sflow.Protocol.FlowRecord.{Memory}
use sflow.Protocol.Leaves.Host.{host_parent_fields}
use sflow.Protocol.Counter.{Counter, host_parent}
use sflow.Protocol.CounterRecord.{CounterRecord, counter_record_fields}
use sflow.Protocol.CounterRecord.Bytes.{IsCounterRecord, counter_record_bytes}
use sflow.Protocol.CounterRecord.Data.{counter_bytes}
use sflow.Protocol.CounterSample.{CounterSample, counter_sample_fields}
use sflow.Protocol.CounterSample.Bytes.{IsCounterSample, counter_sample_bytes}
use sflow.Protocol.Sample.{Sample, counter}
use sflow.Protocol.Sample.Bytes.{IsSample, sample_data_bytes}
use sflow.Source.Types.{
  Source, Interrupt, FlowsampleData, flowsample, ifgeneric, interrupt, poll, flowsample_data,
  ifgeneric_data,
}
use sflow.Leaf.Flowsample.Laws.{IsFlowsample}
use sflow.Util.Kstat.{
  Kernel, Named, ui32, ui64, str_eq, get_one_kstat, query_kstat, kstat_value, find_kstat,
  stored_value,
}
use sflow.Leaf.Ifgeneric.Counters.{LinkCounters, Reports}
use sflow.Sender.{Sender, Moment}
use sflow.Sender.Invariant.{IsFit, IsQueued, IsSender}

abbrev pub agent : List ℕ
agent = 10 ∷ 0 ∷ 0 ∷ 1 ∷ []

abbrev pub memory : Memory
memory = λ address. replicate 2048 170

pub memory-size : (address : ℕ) → 2048 ≤ length (memory address)
memory-size address = omega (arith, length-replicate {A = ℕ} 2048 170)

abbrev pub tap : Interrupt
tap = record { fd = 5; rate = 100 }

abbrev pub tap_data : FlowsampleData
tap_data = record { datalink = 2; pool = 0; drops = 0 }

abbrev pub flow_source : Source
flow_source = record {
  name = codes "net0";
  source_type = flowsample;
  kind = interrupt tap;
  count = 3;
  id_type = 0;
  id = 2;
  ent = 0;
  fmt = 1;
  specific = flowsample_data tap_data;
}

pub flow_source-IsFlowsample : IsFlowsample flow_source tap tap_data
flow_source-IsFlowsample = record { kind = refl; specific = refl; ent = refl; fmt = refl }

abbrev pub link_source : Source
link_source = record {
  name = codes "net0";
  source_type = ifgeneric;
  kind = poll (record { thread = 1; interval = 20 });
  count = 8;
  id_type = 0;
  id = 2;
  ent = 0;
  fmt = 2;
  specific = ifgeneric_data 2;
}

-- Every statistic is the length of its name; three of them are 64 bits wide.
abbrev pub length_stat : List ℕ → Option Named
length_stat stat =
    if str_eq stat (codes "ifspeed")
      || str_eq stat (codes "rbytes64")
      || str_eq stat (codes "obytes64")
    then some (ui64 (length stat))
    else some (ui32 (length stat))

abbrev pub stats : Kernel
stats = record {
  opens = true;
  lookup = λ mod_name instance_no name. some (record { readable = true; named = length_stat });
  parse_zone_link = λ name. none;
  parse_link = λ name. none;
}

abbrev pub link_counters : LinkCounters
link_counters = record {
  speed = 7;
  duplex = 11;
  state = 10;
  in_octets = 8;
  in_multicast = 8;
  in_broadcast = 9;
  in_errors = 7;
  in_unknown = 8;
  out_octets = 8;
  out_multicast = 8;
  out_broadcast = 9;
  out_errors = 7;
}

pub link_source-Reports : Reports stats (codes "net0") link_counters
unfolding get_one_kstat query_kstat kstat_value find_kstat stored_value
link_source-Reports = record {
  speed = refl;
  duplex = refl;
  state = refl;
  in_octets = refl;
  in_multicast = refl;
  in_broadcast = refl;
  in_errors = refl;
  in_unknown = refl;
  out_octets = refl;
  out_multicast = refl;
  out_broadcast = refl;
  out_errors = refl;
}

-- A counter sample with the parent of a virtual host
abbrev pub parent : Counter
parent = host_parent (record { container_type = htonl little 2; container_index = htonl little 0 })

abbrev pub parent_record : CounterRecord
parent_record = record { dfmt = htonl little 2002; len = htonl little 8; content = parent }

pub parent_record-IsCounterRecord : IsCounterRecord little parent_record
unfolding htonl get_data_ent get_data_fmt counter_bytes struct_image field_image host_parent_fields
    image
parent_record-IsCounterRecord = record { is_counter = tt; ent = refl; fmt = refl; len = refl }

abbrev pub parent_counters : CounterSample
parent_counters = record {
  seq_no = htonl little 1;
  dsrc = htonl little 3;
  count = htonl little 1;
  records = parent_record ∷ [];
}

pub parent_counters-IsCounterSample : IsCounterSample little parent_counters
unfolding htonl
parent_counters-IsCounterSample = record {
  count = refl;
  records = (parent_record-IsCounterRecord, tt);
}

abbrev pub parent_sample : Sample
parent_sample = record {
  dfmt = htonl little 2;
  len = htonl little 28;
  content = counter parent_counters;
}

pub parent_sample-IsSample : (mem : Memory) → IsSample little mem parent_sample
unfolding htonl get_data_ent get_data_fmt sample_data_bytes counter_sample_bytes
    counter_record_bytes counter_bytes struct_image field_image counter_sample_fields
    counter_record_fields host_parent_fields image
parent_sample-IsSample mem = record {
  is_data = parent_counters-IsCounterSample;
  ent = refl;
  fmt = refl;
  len = refl;
}

-- Any memory will do for a sample without a pointer.
abbrev pub Any : Memory → Type 0
Any mem = Unit {0}

pub parent_sample-IsFit : IsFit little agent Any parent_sample
unfolding htonl
parent_sample-IsFit = record {
  is_sample = λ mem _. parent_sample-IsSample mem;
  small = omega arith;
}

abbrev pub now : Moment
now = record { mem = memory; up_time = 60 }

abbrev pub idle_sender : Sender
idle_sender = record {
  armed = false;
  timer = false;
  seq = 0;
  buffered = record { name = codes "samples to send"; count = 0; data_size = pos 0; items = [] };
  sent = [];
}

pub idle_sender-IsSender : IsSender little agent Any [] idle_sender
idle_sender-IsSender = record {
  batches = [];
  queue = [];
  size = 0;
  all = refl;
  packets = tt;
  seq = refl;
  sized = record { holds = record { items = refl; count = refl }; sizes = refl; total = refl };
  queued = tt;
  room = omega arith;
}

-- A sender with one sample in its buffer
abbrev pub parent_node : Node Sample
parent_node = record { name = codes "sample to send"; content = parent_sample; data_size = pos 44 }

abbrev pub busy_sender : Sender
busy_sender = record {
  armed = true;
  timer = true;
  seq = 0;
  buffered = record {
    name = codes "samples to send";
    count = 1;
    data_size = pos 44;
    items = parent_node ∷ [];
  };
  sent = [];
}

pub busy_sender-Sized : Sized busy_sender.buffered (parent_node ∷ []) 44
busy_sender-Sized = record {
  holds = record { items = refl; count = refl };
  sizes = (44, 0, refl, refl, refl);
  total = refl;
}

pub parent_node-IsQueued : IsQueued little agent Any parent_node
unfolding htonl
parent_node-IsQueued = record { fit = parent_sample-IsFit; size = refl }

pub busy_sender-IsSender : IsSender little agent Any (parent_sample ∷ []) busy_sender
busy_sender-IsSender = record {
  batches = [];
  queue = parent_node ∷ [];
  size = 44;
  all = refl;
  packets = tt;
  seq = refl;
  sized = busy_sender-Sized;
  queued = (parent_node-IsQueued, tt);
  room = omega arith;
}
