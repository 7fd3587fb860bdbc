-- ===== src/Leaf/Hostphy/Cpu.antt =====
-- The processors and processes of sflow/sflow_protocol_leaf_hostphy.c: count_process,
-- walk_cpu_instances_for_cpu_counters and sflow_cr_host_cpu_pack.
pub mod Processes
pub mod Laws
use sflow.Common.{
  ℕ, ◌+◌, ◌-◌, ◌*◌, ◌/◌, ◌%◌, ◌^◌, Bool, ◌&&◌, ◌||◌, List, [], ◌∷◌, ◌++◌, length, Option, none,
  some, Outcome, ok, fault, ◌>>=◌, or_fault, uninitialised, out_of_bounds, for_range, leb, ltb,
  ◌==◌, if◌then◌else◌,
}
use sflow.Common.Text.{codes}
use sflow.Memory.Endian.{Endian, htonl}
use sflow.Util.Itoa.{itoa}
use sflow.Util.Kstat.{Kernel, uint32, uint64, string, query_kstat}
use sflow.Protocol.Leaves.Host.{HostCpu}
use sflow.Leaf.System.{Process, System}
use sflow.Leaf.Hostphy.Cpu.Processes.{count_process, leading_number}

-- buf_64 = 0; sflow_query_kstat (..., &buf_64): where it fails the 0 stays.
unfoldable pub cpu_stat : Kernel → ℕ → List ℕ → ℕ
cpu_stat kernel i stat = elim (query_kstat kernel (codes "cpu") i (codes "sys") stat uint64) [
  | none ↦ 0
  | some buf_64 ↦ buf_64 % 2 ^ 64
]

-- (uint32_t)(buf_64/1000000000/h->hc_cpu_num)
abbrev pub seconds_share : ℕ → ℕ → ℕ
seconds_share buf_64 cpu_num = buf_64 / 1_000_000_000 / cpu_num % 2 ^ 32

-- "cpu_info" and the number, in `char [16]`
unfoldable pub cpu_info_name : ℕ → Outcome (List ℕ)
cpu_info_name i = do
  number ← itoa i
  if leb (length number) 7 then ok (codes "cpu_info" ++ number) else fault out_of_bounds

-- `buf_big`, a `char [128]` that is never cleared: the text of an earlier processor stays where
-- the query fails, and for the first one it was never written.
unfoldable pub speed_text : Kernel → ℕ → Option (List ℕ) → List ℕ → Outcome (List ℕ)
speed_text kernel i buf_big name_buf =
    elim (query_kstat kernel (codes "cpu_info") i name_buf (codes "supported_frequencies_Hz")
      string) [
        | none ↦ or_fault buf_big uninitialised
        | some s ↦ if ltb (length s) 128 then ok s else fault out_of_bounds
      ]

unfoldable pub read_speed : Kernel → ℕ → Option (List ℕ) → Outcome (List ℕ)
read_speed kernel i buf_big = do name_buf ← cpu_info_name i; speed_text kernel i buf_big name_buf

-- One round of the loop over the processors
unfoldable pub cpu_round :
    Kernel → ℕ → ℕ → HostCpu × Option (List ℕ) → Outcome (HostCpu × Option (List ℕ))
cpu_round kernel cpu_num i (h, buf_big) = do
  buf ← read_speed kernel i buf_big
  ok (
    record h {
      cpu_speed = (h.cpu_speed + leading_number buf / cpu_num % 2 ^ 32) % 2 ^ 32;
      cpu_user =
          (h.cpu_user + seconds_share (cpu_stat kernel i (codes "cpu_nsec_user")) cpu_num) % 2 ^ 32;
      cpu_idle =
          (h.cpu_idle + seconds_share (cpu_stat kernel i (codes "cpu_nsec_idle")) cpu_num) % 2 ^ 32;
      cpu_system =
          (h.cpu_system + seconds_share (cpu_stat kernel i (codes "cpu_nsec_kernel")) cpu_num)
          % 2 ^ 32;
      cpu_intr =
          (h.cpu_intr + seconds_share (cpu_stat kernel i (codes "cpu_nsec_intr")) cpu_num) % 2 ^ 32;
      cpu_wio = (h.cpu_wio + seconds_share (cpu_stat kernel i (codes "iowait")) cpu_num) % 2 ^ 32;
      interrupts = (h.interrupts + cpu_stat kernel i (codes "intr") / cpu_num % 2 ^ 32) % 2 ^ 32;
    },
    some buf,
  )

-- The number of processors; the field was cleared.
unfoldable pub ncpus : Kernel → ℕ
ncpus kernel =
    elim (query_kstat kernel (codes "unix") 0 (codes "system_misc") (codes "ncpus") uint32) [
      | none ↦ 0
      | some n ↦ n % 2 ^ 32
    ]

unfoldable pub walk_cpus : Kernel → HostCpu → Outcome HostCpu
walk_cpus kernel h = do
  (h', _) ←
      for_range (ncpus kernel) 0 (cpu_round kernel (ncpus kernel))
        (record h { cpu_num = ncpus kernel }, none)
  ok h'

abbrev pub cleared_cpu : HostCpu
cleared_cpu = record {
  load_one = 0;
  load_five = 0;
  load_fifteen = 0;
  proc_run = 0;
  proc_total = 0;
  cpu_num = 0;
  cpu_speed = 0;
  uptime = 0;
  cpu_user = 0;
  cpu_nice = 0;
  cpu_system = 0;
  cpu_idle = 0;
  cpu_wio = 0;
  cpu_intr = 0;
  cpu_sintr = 0;
  interrupts = 0;
  contexts = 0;
}

unfoldable pub cpu_pack : Endian → System → Outcome HostCpu
cpu_pack e sys = do
  let (status, total, running) = count_process sys.proc_dir
  h ← walk_cpus sys.kernel (record cleared_cpu {
    load_one = htonl e sys.load_one;
    load_five = htonl e sys.load_five;
    load_fifteen = htonl e sys.load_fifteen;
    proc_run = htonl e running;
    proc_total = htonl e total;
    uptime = htonl e sys.up_time;
  })
  ok (record h {
    cpu_num = htonl e h.cpu_num;
    cpu_speed = htonl e h.cpu_speed;
    cpu_user = htonl e h.cpu_user;
    cpu_system = htonl e h.cpu_system;
    cpu_idle = htonl e h.cpu_idle;
    cpu_intr = htonl e h.cpu_intr;
    cpu_wio = htonl e h.cpu_wio;
    interrupts = htonl e h.interrupts;
  })
