-- ===== src/Examples/Hosts.antt =====
-- The samplers of a host and of a zone at concrete systems.
use sflow.Common.{
  ℕ, ◌≤◌, ◌≡◌, ◌↔◌, refl, true, false, List, [], ◌∷◌, arith, length, some, none, ok, if◌then◌else◌,
  Option,
}
use sflow.Common.Int.{pos}
use sflow.Common.Text.{codes}
use sflow.Memory.Endian.{little}
use sflow.Util.Kstat.{
  Kernel, Named, ui32, text, str_eq, has_char, query_kstat, get_one_kstat, find_kstat, kstat_value,
  stored_value,
}
use sflow.Util.Mac.{
  mac_convert, mac_text, mac_convert-mac_text, scan_mac, scan_hex, hex_number, hex_digits,
  hex_value, store_mac,
}
use sflow.Leaf.System.{Link, System, Process}
use sflow.Leaf.Hostphy.Links.Laws.{HasMac}
use sflow.Leaf.Hostphy.Links.Totals.{LinkTotals, Counts, net_io_of, net_io_pack-net_io_of}
use sflow.Leaf.Hostphy.Cpu.Laws.{HasSpeeds, averaged}
use sflow.Leaf.Hostphy.Memory.Laws.{TellsCpus, memory_of, memory_pack-memory_of}
use sflow.Leaf.Hostphy.Laws.{Answers, structures, get_sample_hostphy-IsSample}
use sflow.Util.Machine.{boot_time, other_entry, up_time_sec}
use sflow.Util.Machine.Laws.{up_time_sec_lem}
use sflow.Protocol.Leaves.Host.{HostCpu}
use sflow.Protocol.CounterSample.Pack.{counted}
use sflow.Protocol.Sample.{Sample}
use sflow.Protocol.Sample.Bytes.{IsSample, sample_data_bytes}
use sflow.Source.Types.{Source, phyhost, poll, no_data}
use sflow.Leaf.Records.Laws.{records_wire}
use sflow.Leaf.Hostphy.{get_sample_hostphy}
use sflow.Leaf.Hostphy.Cpu.{cleared_cpu}
use sflow.Leaf.Hostphy.Cpu.Processes.{count_process, some_gone, states, active, count_process_lem}
use sflow.Leaf.Hostphy.Memory.{memory_pack}
use sflow.Leaf.Hostphy.Links.{net_io_pack}
use sflow.Leaf.Fit.{get_sample_hostphy-IsFit}
use sflow.Sender.Invariant.{IsFit}
use sflow.Examples.Data.{length_stat, memory, agent, Any}

-- Two processors; every other statistic is the length of its name.
abbrev host_stat : List ℕ → Option Named
host_stat stat =
    if str_eq stat (codes "ncpus")
    then some (ui32 2)
    else if str_eq stat (codes "supported_frequencies_Hz")
    then some (text (codes "1600000000"))
    else length_stat stat

abbrev pub host_kernel : Kernel
host_kernel = record {
  opens = true;
  lookup = λ mod_name instance_no name. some (record { readable = true; named = host_stat });
  parse_zone_link = λ name. none;
  parse_link = λ name. none;
}

abbrev pub mac : List ℕ
mac = 0 ∷ 20 ∷ 79 ∷ 1 ∷ 2 ∷ 3 ∷ []

abbrev pub net0 : Link
net0 = record { linkid = 2; name = codes "net0"; mac_address = some (codes "0:14:4f:1:2:3", 1) }

abbrev pub net1 : Link
net1 = record { linkid = 3; name = codes "net1"; mac_address = some (codes "0:14:4f:1:2:3", 1) }

abbrev pub host : System
host = record {
  kernel = host_kernel;
  host_name = codes "host";
  release = codes "5.11";
  serial = codes "12345678";
  architecture = codes "i386";
  load_one = 0;
  load_five = 0;
  load_fifteen = 0;
  proc_dir = some (record { name = codes "17"; psinfo = some 82 } ∷ []);
  up_time = 1000;
  links = some (net0 ∷ net1 ∷ [], 0);
  stale = λ i. 0 ∷ 0 ∷ [];
  after_free = λ len. some len;
  swap_count = some 0;
  swap_list = none;
  sys_page_size = 4096;
  random = λ i. i;
}

abbrev pub speeds : ℕ → List ℕ
speeds i = codes "1600000000"

abbrev pub link_totals : Link → LinkTotals
link_totals di = record {
  bytes_in = 8;
  bytes_out = 8;
  errs_in = 7;
  errs_out = 7;
  pkts_in = 8;
  pkts_out = 8;
}

pub host_kernel-Counts :
    (di : Link) → has_char 47 di.name ≡ false → Counts host_kernel di (link_totals di)
unfolding get_one_kstat query_kstat kstat_value find_kstat stored_value
host_kernel-Counts di h = record {
  bytes_in = rw h refl;
  bytes_out = rw h refl;
  errs_in = rw h refl;
  errs_out = rw h refl;
  pkts_in = rw h refl;
  pkts_out = rw h refl;
}

pub host_kernel-TellsCpus : TellsCpus host_kernel 2
unfolding query_kstat kstat_value find_kstat stored_value
host_kernel-TellsCpus = refl

pub host_kernel-HasSpeeds : HasSpeeds host_kernel 2 speeds
unfolding query_kstat kstat_value find_kstat stored_value
host_kernel-HasSpeeds = record {
  few = omega arith;
  is = λ i number small e. refl;
  short = λ i small. omega arith;
}

mac-reads : mac_convert (codes "0:14:4f:1:2:3") ≡ ok mac
unfolding mac_convert scan_mac scan_hex hex_number hex_digits hex_value store_mac
mac-reads = refl

abbrev net0-HasMac : HasMac net0
net0-HasMac = record {
  text = codes "0:14:4f:1:2:3";
  values = 1;
  mac = mac;
  is = refl;
  reads = mac-reads;
}

abbrev net1-HasMac : HasMac net1
net1-HasMac = record {
  text = codes "0:14:4f:1:2:3";
  values = 1;
  mac = mac;
  is = refl;
  reads = mac-reads;
}

abbrev host-counts :
    Counts host_kernel net0 (link_totals net0)
    × (Counts host_kernel net1 (link_totals net1) × Unit {0})
host-counts = (host_kernel-Counts net0 refl, (host_kernel-Counts net1 refl, tt))

abbrev host-Answers : Answers host 2 speeds link_totals
host-Answers = record {
  cpus = host_kernel-TellsCpus;
  has_speeds = host_kernel-HasSpeeds;
  macs = (net0-HasMac, (net1-HasMac, tt));
  few_links = omega arith;
  counts = host-counts;
  kept = refl;
}

abbrev one_process : List Process
one_process = record { name = codes "17"; psinfo = some 82 } ∷ []

abbrev pub host_source : Source
host_source = record {
  name = codes "host";
  source_type = phyhost;
  kind = poll (record { thread = 1; interval = 20 });
  count = 4;
  id_type = 2;
  id = 0;
  ent = 0;
  fmt = 2;
  specific = no_data;
}

mac_convert-mac_text_example : mac_convert (codes "00:14:4f:01:02:03") ≡ ok mac
unfolding mac_text
mac_convert-mac_text_example = mac_convert-mac_text mac (omega arith) refl

up_time_sec_lem_example :
    (up_time_sec 3 (other_entry ∷ boot_time 100 ∷ other_entry ∷ []) 1000 0 ≡ ok (100, 930))
    × (up_time_sec 3 [] 2000 100 ≡ ok (100, 1930))
up_time_sec_lem_example =
    up_time_sec_lem 1 3 1 100 1000 2000 3 [] (omega arith) (omega arith) (omega arith) (omega arith)
      (omega arith)

count_process_lem_example :
    (count_process host.proc_dir
      ≡ (pos (some_gone one_process), length (states one_process), active (states one_process)))
    × (active (states one_process) ≤ length (states one_process))
count_process_lem_example = count_process_lem one_process (omega arith)

abbrev two_averages : HostCpu
two_averages = averaged host_kernel 2 speeds cleared_cpu 2

memory_pack-memory_of_example : memory_pack little host ≡ ok (memory_of host little 2)
memory_pack-memory_of_example =
    memory_pack-memory_of host little 2 (omega arith) host_kernel-TellsCpus

net_io_pack-net_io_of_example :
    net_io_pack little host ≡ ok (net_io_of little host link_totals (net0 ∷ net1 ∷ []))
net_io_pack-net_io_of_example = net_io_pack-net_io_of little host link_totals host-counts

get_sample_hostphy-IsSample_example :
    (sp : Sample) × (get_sample_hostphy little host host_source ≡ ok (sp, counted host_source))
    × IsSample little memory sp
    × (sample_data_bytes little memory sp.content
        ≡ records_wire little host_source
            (structures little host 2 speeds link_totals host-Answers))
get_sample_hostphy-IsSample_example =
    get_sample_hostphy-IsSample little host 2 speeds link_totals host-Answers memory host_source

get_sample_hostphy-IsFit_example :
    (sp : Sample) × (get_sample_hostphy little host host_source ≡ ok (sp, counted host_source))
    × (IsFit little agent Any sp ↔ (2 ≤ 58))
get_sample_hostphy-IsFit_example =
    get_sample_hostphy-IsFit little agent host_source host 2 speeds link_totals Any host-Answers
