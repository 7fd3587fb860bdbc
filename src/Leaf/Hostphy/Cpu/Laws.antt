-- ===== src/Leaf/Hostphy/Cpu/Laws.antt =====
-- The averages over the processors.
use sflow.Common.{
  ℕ, ◌+◌, ◌/◌, ◌%◌, ◌^◌, ◌<◌, ◌≤◌, ◌≡◌, refl, ap, ◌∙◌, List, ◌++◌, arith, length, Option, none,
  some, ok, for_range_inv, sum_below, sum_below-next, lt→ltb, le→leb,
}
use sflow.Common.Text.{codes}
use sflow.Memory.Endian.{Endian, htonl}
use sflow.Util.Itoa.{itoa, itoa-length}
use sflow.Util.Kstat.{Kernel, string, uint64, query_kstat}
use sflow.Protocol.Leaves.Host.{HostCpu}
use sflow.Leaf.System.{System}
use sflow.Leaf.Hostphy.Cpu.{
  cpu_stat, cpu_info_name, speed_text, read_speed, cpu_round, ncpus, walk_cpus, cleared_cpu,
  cpu_pack,
}
use sflow.Leaf.Hostphy.Cpu.Processes.{leading_number, count_process}

-- The kernel has a text of the frequencies of each of `n` processors, below 128 characters.
pub record HasSpeeds (kernel : Kernel) (n : ℕ) (speeds : ℕ → List ℕ) : Type 0 where
  pub few : n < 10_000_000
  pub is :
      (i : ℕ) (number : List ℕ)
      → i < n
      → itoa i ≡ ok number
      → query_kstat kernel
          (codes "cpu_info")
          i
          (codes "cpu_info" ++ number)
          (codes "supported_frequencies_Hz")
          string
        ≡ some (speeds i)
  pub short : (i : ℕ) → i < n → length (speeds i) < 128

-- A counter that the kernel keeps of processor `i`, 0 where it has none
unfoldable pub kept_of : Kernel → List ℕ → ℕ → ℕ
kept_of kernel stat i = elim (query_kstat kernel (codes "cpu") i (codes "sys") stat uint64) [
  | none ↦ 0
  | some t ↦ t % 2 ^ 64
]

cpu_stat-kept_of :
    (kernel : Kernel) (i : ℕ) (stat : List ℕ) → cpu_stat kernel i stat ≡ kept_of kernel stat i
unfolding cpu_stat kept_of
cpu_stat-kept_of kernel i stat = refl

module _ (kernel : Kernel) (n : ℕ) (speeds : ℕ → List ℕ) where
  -- A time in whole seconds
  abbrev pub seconds : List ℕ → ℕ → ℕ
  seconds stat i = kept_of kernel stat i / 1_000_000_000

  -- The structure `h` after `i` processors
  abbrev pub averaged : HostCpu → ℕ → HostCpu
  averaged h i = record h {
    cpu_num = n;
    cpu_nice = 0;
    cpu_sintr = 0;
    contexts = 0;
    cpu_speed = sum_below i (λ j. leading_number (speeds j) / n) % 2 ^ 32;
    cpu_user = sum_below i (λ j. seconds (codes "cpu_nsec_user") j / n) % 2 ^ 32;
    cpu_idle = sum_below i (λ j. seconds (codes "cpu_nsec_idle") j / n) % 2 ^ 32;
    cpu_system = sum_below i (λ j. seconds (codes "cpu_nsec_kernel") j / n) % 2 ^ 32;
    cpu_intr = sum_below i (λ j. seconds (codes "cpu_nsec_intr") j / n) % 2 ^ 32;
    cpu_wio = sum_below i (λ j. seconds (codes "iowait") j / n) % 2 ^ 32;
    interrupts = sum_below i (λ j. kept_of kernel (codes "intr") j / n) % 2 ^ 32;
  }

  cpu_info_name_lem :
      (i : ℕ) (number : List ℕ)
      → itoa i ≡ ok number
      → length number ≤ 7
      → cpu_info_name i ≡ ok (codes "cpu_info" ++ number)
  unfolding cpu_info_name
  cpu_info_name_lem i number e le = rw (e, le→leb (length number) 7 le) refl

  speed_text_lem :
      (i : ℕ) (buf : Option (List ℕ)) (number : List ℕ)
      → HasSpeeds kernel n speeds
      → i < n
      → itoa i ≡ ok number
      → speed_text kernel i buf (codes "cpu_info" ++ number) ≡ ok (speeds i)
  unfolding speed_text
  speed_text_lem i buf number h small e =
      rw (h.is i number small e, lt→ltb (length (speeds i)) 128 (h.short i small), speed_text) refl

  read_speed_lem :
      (i : ℕ) (buf : Option (List ℕ))
      → HasSpeeds kernel n speeds
      → i < n
      → read_speed kernel i buf ≡ ok (speeds i)
  unfolding read_speed
  read_speed_lem i buf h small =
      let (number, e, le) = itoa-length i 6 (omega (arith, h.few)) in
      rw (cpu_info_name_lem i number e le) (speed_text_lem i buf number h small e)

  sum_round :
      (i : ℕ) (f : ℕ → ℕ)
      → (sum_below i f % 2 ^ 32 + f i % 2 ^ 32) % 2 ^ 32 ≡ sum_below (i + 1) f % 2 ^ 32
  sum_round i f = omega (arith, sum_below-next i f)

  cpu_round_lem :
      (h : HostCpu) (i : ℕ) (buf : Option (List ℕ))
      → HasSpeeds kernel n speeds
      → i < n
      → cpu_round kernel n i (averaged h i, buf) ≡ ok (averaged h (i + 1), some (speeds i))
  unfolding cpu_round
  cpu_round_lem h i buf has small =
      rw
        (
          read_speed_lem i buf has small,
          cpu_stat-kept_of kernel i (codes "cpu_nsec_user"),
          cpu_stat-kept_of kernel i (codes "cpu_nsec_idle"),
          cpu_stat-kept_of kernel i (codes "cpu_nsec_kernel"),
          cpu_stat-kept_of kernel i (codes "cpu_nsec_intr"),
          cpu_stat-kept_of kernel i (codes "iowait"),
          cpu_stat-kept_of kernel i (codes "intr"),
          sum_round i (λ j. leading_number (speeds j) / n),
          sum_round i (λ j. seconds (codes "cpu_nsec_user") j / n),
          sum_round i (λ j. seconds (codes "cpu_nsec_idle") j / n),
          sum_round i (λ j. seconds (codes "cpu_nsec_kernel") j / n),
          sum_round i (λ j. seconds (codes "cpu_nsec_intr") j / n),
          sum_round i (λ j. seconds (codes "iowait") j / n),
          sum_round i (λ j. kept_of kernel (codes "intr") j / n),
        )
        refl

  abbrev pub started : HostCpu → HostCpu
  started h = record cleared_cpu {
    load_one = h.load_one;
    load_five = h.load_five;
    load_fifteen = h.load_fifteen;
    proc_run = h.proc_run;
    proc_total = h.proc_total;
    uptime = h.uptime;
  }

  averaged-started : (h : HostCpu) → record (started h) { cpu_num = n } ≡ averaged h 0
  unfolding sum_below
  averaged-started h = refl

  -- For a number of processors that the kernel tells, with their frequencies, the loop succeeds
  -- with the sums of the shares.
  pub walk_cpus_lem :
      (h : HostCpu)
      → ncpus kernel ≡ n
      → HasSpeeds kernel n speeds
      → walk_cpus kernel (started h) ≡ ok (averaged h n)
  unfolding walk_cpus
  walk_cpus_lem h e has =
      let P = λ (i : ℕ) (s : HostCpu × Option (List ℕ)). s.0 ≡ averaged h i in
      let keep : (i : ℕ) (s : HostCpu × Option (List ℕ))
          → i < n
          → P i s
          → (s' : HostCpu × Option (List ℕ)) × (cpu_round kernel n i s ≡ ok s') × P (i + 1) s' =
        λ i s small eq. (
          (averaged h (i + 1), some (speeds i)),
          ap (λ (x : HostCpu). cpu_round kernel n i (x, s.1)) eq ∙ cpu_round_lem h i s.1 has small,
          refl,
        ) in
      let (s, e_s, p) =
        for_range_inv P (cpu_round kernel n) n keep n 0 (record (started h) { cpu_num = n }, none)
          (omega arith) (averaged-started h) in
      rw (e, e_s) (ap (λ (x : HostCpu). ok x) p)

module _ (e : Endian) (sys : System) (n : ℕ) (speeds : ℕ → List ℕ) where
  -- The structure before it is converted
  abbrev host_cpu_of : HostCpu
  host_cpu_of =
      let (status, all, running) = count_process sys.proc_dir in
      averaged sys.kernel n speeds
        (record cleared_cpu {
          load_one = htonl e sys.load_one;
          load_five = htonl e sys.load_five;
          load_fifteen = htonl e sys.load_fifteen;
          proc_run = htonl e running;
          proc_total = htonl e all;
          uptime = htonl e sys.up_time;
        })
        n

  abbrev pub cpu_of : HostCpu
  cpu_of = record host_cpu_of {
    cpu_num = htonl e host_cpu_of.cpu_num;
    cpu_speed = htonl e host_cpu_of.cpu_speed;
    cpu_user = htonl e host_cpu_of.cpu_user;
    cpu_system = htonl e host_cpu_of.cpu_system;
    cpu_idle = htonl e host_cpu_of.cpu_idle;
    cpu_intr = htonl e host_cpu_of.cpu_intr;
    cpu_wio = htonl e host_cpu_of.cpu_wio;
    interrupts = htonl e host_cpu_of.interrupts;
  }

  -- Packing the processor counters succeeds with the converted loads, numbers of processes, time
  -- and averages.
  pub cpu_pack_lem :
      ncpus sys.kernel ≡ n → HasSpeeds sys.kernel n speeds → cpu_pack e sys ≡ ok cpu_of
  unfolding cpu_pack
  cpu_pack_lem is has = rw (walk_cpus_lem sys.kernel n speeds host_cpu_of is has) refl
