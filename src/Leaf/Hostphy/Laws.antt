-- ===== src/Leaf/Hostphy/Laws.antt =====
-- The sample of the physical host: six records, of which only the adapters' grows with the host.
use sflow.Common.{
  take, Bool-cases, inl, inr, if◌then◌else◌, some, ℕ, ◌+◌, ◌*◌, ◌^◌, ◌<◌, ◌≡◌, refl, ◌∙◌, List, [],
  ◌∷◌, arith, length, ok,
}
use sflow.Common.Text.{codes}
use sflow.Memory.Endian.{htonl}
use sflow.Memory.Endian.{Endian}
use sflow.Util.Machine.{machine_type}
use sflow.DataList.{DataList}
use sflow.Protocol.Leaves.Host.{HostDescr}
use sflow.Protocol.FlowRecord.{Memory}
use sflow.Protocol.Counter.{
  Counter, host_descr, host_adapters, host_cpu, host_memory, host_disk_io, host_net_io,
}
use sflow.Protocol.CounterLen.{counter_len}
use sflow.Protocol.CounterRecord.{CounterRecord}
use sflow.Protocol.CounterRecord.Data.{counter_bytes}
use sflow.Protocol.CounterSample.Pack.{counted}
use sflow.Protocol.Sample.{Sample}
use sflow.Protocol.Sample.Bytes.{IsSample, sample_data_bytes}
use sflow.Protocol.Sequence.{All}
use sflow.Source.Text.{starts_with}
use sflow.Source.Types.{Source}
use sflow.Leaf.System.{Link, System}
use sflow.Leaf.Records.{finish}
use sflow.Leaf.Records.Laws.{
  IsStandard, records_wire, Gathers, create-Gathers, attach-Gathers, finish-IsSample,
}
use sflow.Leaf.Records.Size.{counter_len-IsStandard, length-records_wire}
use sflow.Leaf.Hostphy.{get_sample_hostphy}
use sflow.Leaf.Hostphy.Links.Laws.{
  links_of, HasMac, adapters_record, adapters_record-len, adapters_pack_lem,
}
use sflow.Leaf.Hostphy.Links.Totals.{LinkTotals, Counts, net_io_of, net_io_pack-net_io_of}
use sflow.Leaf.Hostphy.Cpu.{ncpus}
use sflow.Leaf.Hostphy.Cpu.Laws.{HasSpeeds, cpu_of, cpu_pack_lem}
use sflow.Leaf.Hostphy.Memory.Laws.{TellsCpus, memory_of, memory_pack-memory_of}
use sflow.Leaf.Hostphy.Descr.{descr_pack, disk_io_pack}

-- A system that answers every question that the code needs an answer to: `n` processors with their
-- frequencies, addresses that can be read and all counters of each link. The allocator is one on which the code
-- can read the adapters' length word in the block that it freed just before.
pub record Answers (sys : System) (n : ℕ) (speeds : ℕ → List ℕ) (c : Link → LinkTotals)
    : Type 0 where
  pub cpus : TellsCpus sys.kernel n
  pub has_speeds : HasSpeeds sys.kernel n speeds
  pub macs : All HasMac (links_of sys.links)
  pub few_links : length (links_of sys.links) < 2 ^ 24
  pub counts : All (λ di. Counts sys.kernel di (c di)) (links_of sys.links)
  -- `free` leaves the length word of the adapters as it was.
  pub kept :
      sys.after_free (4 + 16 * length (links_of sys.links))
      ≡ some (4 + 16 * length (links_of sys.links))

module _ (e : Endian) (sys : System) (n : ℕ) (speeds : ℕ → List ℕ) (c : Link → LinkTotals)
    (answers : Answers sys n speeds c) where
  abbrev adapters : Counter
  adapters = host_adapters (adapters_record e sys answers.macs)

  -- The description: the texts cut to their arrays, 2 for an i386 and else 0, and 12 for Solaris
  abbrev pub descr_of : HostDescr
  descr_of = record {
    name_len = htonl e 60;
    name = take 59 sys.host_name;
    uuid = take 15 sys.serial;
    machine_type = htonl e (if starts_with sys.architecture (codes "i386") then 2 else 0);
    os_name = htonl e 12;
    os_release_len = htonl e 28;
    os_release = take 27 sys.release;
  }

  descr_pack-descr_of : descr_pack e sys ≡ descr_of
  unfolding descr_pack machine_type
  descr_pack-descr_of = elim (Bool-cases (starts_with sys.architecture (codes "i386"))) [
    | inl t ↦ rw (t, descr_pack, machine_type) refl
    | inr t ↦ rw (t, descr_pack, machine_type) refl
  ]

  -- The six structures
  abbrev pub structures : List Counter
  structures =
      host_descr descr_of
      ∷ adapters
      ∷ host_cpu (cpu_of e sys n speeds)
      ∷ host_memory (memory_of sys e n)
      ∷ host_disk_io (disk_io_pack e sys)
      ∷ host_net_io (net_io_of e sys c (links_of sys.links))
      ∷ []

  told : ncpus sys.kernel ≡ n
  unfolding ncpus
  told = rw (answers.cpus, ncpus) (omega (arith, answers.has_speeds.few))

  adapters_len : counter_len 0 2001 adapters ≡ ok (4 + 16 * length (links_of sys.links))
  unfolding counter_len
  adapters_len = refl

  module _ (d : Counter) where
    IsSized : ℕ → Type 0
    IsSized k = IsStandard e d × (length (counter_bytes e d) ≡ k)

  standard :
      IsSized (host_descr descr_of) 120
      × IsSized adapters (4 + 16 * length (links_of sys.links))
      × IsSized (host_cpu (cpu_of e sys n speeds)) 68
      × IsSized (host_memory (memory_of sys e n)) 72
      × IsSized (host_disk_io (disk_io_pack e sys)) 52
      × IsSized (host_net_io (net_io_of e sys c (links_of sys.links))) 40
  unfolding counter_len IsSized
  standard = (
    counter_len-IsStandard e _ 120 tt refl (omega arith) refl,
    counter_len-IsStandard e adapters _ (adapters_record-len e sys answers.macs, answers.kept) refl
        (omega (arith, answers.few_links)) refl,
    counter_len-IsStandard e _ 68 tt refl (omega arith) refl,
    counter_len-IsStandard e _ 72 tt refl (omega arith) refl,
    counter_len-IsStandard e _ 52 tt refl (omega arith) refl,
    counter_len-IsStandard e _ 40 tt refl (omega arith) refl,
  )

  structures-IsStandard : All (IsStandard e) structures
  unfolding IsSized
  structures-IsStandard =
      let (a, b, c', d, f, g) = standard in (a.0, (b.0, (c'.0, (d.0, (f.0, (g.0, tt))))))

  -- The sample takes 416 bytes and 16 for each link.
  pub length-structures :
      (source : Source)
      → length (records_wire e source structures) ≡ 416 + 16 * length (links_of sys.links)
  unfolding IsSized
  length-structures source =
      let (a, b, c', d, f, g) = standard in
      omega (arith, length-records_wire e source structures, a.1, b.1, c'.1, d.1, f.1, g.1)

  gathered :
      (source : Source)
      → (l : DataList CounterRecord) × (get_sample_hostphy e sys source ≡ finish e l source)
        × Gathers e l structures
  unfolding get_sample_hostphy
  gathered source =
      let (s1, (s2, (s3, (s4, (s5, (s6, _)))))) = structures-IsStandard in
      let (l0, e0, g0) = create-Gathers e in
      let (l1, e1, g1) = attach-Gathers e l0 [] _ g0 s1 (omega arith) in
      let (l2, e2, g2) = attach-Gathers e l1 _ _ g1 s2 (omega arith) in
      let (l3, e3, g3) = attach-Gathers e l2 _ _ g2 s3 (omega arith) in
      let (l4, e4, g4) = attach-Gathers e l3 _ _ g3 s4 (omega arith) in
      let (l5, e5, g5) = attach-Gathers e l4 _ _ g4 s5 (omega arith) in
      let (l6, e6, g6) = attach-Gathers e l5 _ _ g5 s6 (omega arith) in
      (
        l6,
        rw
            (
              e0,
              descr_pack-descr_of,
              e1,
              adapters_pack_lem e sys answers.macs (omega (arith, answers.few_links)),
              e2,
              cpu_pack_lem e sys n speeds told answers.has_speeds,
              e3,
              memory_pack-memory_of sys e n (omega (arith, answers.has_speeds.few)) answers.cpus,
              e4,
              e5,
              net_io_pack-net_io_of e sys c answers.counts,
              e6,
            )
            refl,
        g6,
      )

  -- Where the system answers - the kernel tells the number of processors, fewer than 10 ^ 7, and
  -- their speeds, every link has an address that is read and every counter, there are fewer than 2
  -- ^ 24 links, and free leaves the length word of the adapters in place - get_sample_hostphy
  -- succeeds with a well-formed sample, whose data are the six records of description, adapters,
  -- processors, memory, disk and network.
  pub get_sample_hostphy-IsSample :
      (mem : Memory) (source : Source)
      → (sp : Sample) × (get_sample_hostphy e sys source ≡ ok (sp, counted source))
        × IsSample e mem sp
        × (sample_data_bytes e mem sp.content ≡ records_wire e source structures)
  get_sample_hostphy-IsSample mem source =
      let (l, e_l, g) = gathered source in
      let (sp, e_sp, is_sp, wire) =
        finish-IsSample e mem l structures source g structures-IsStandard (omega arith)
          (omega (arith, length-structures source, answers.few_links)) in
      (sp, e_l ∙ e_sp, is_sp, wire)
