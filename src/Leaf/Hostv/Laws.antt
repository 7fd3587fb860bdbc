-- ===== src/Leaf/Hostv/Laws.antt =====
-- The sample of a zone.
use sflow.Common.{
  ◌*◌, ℕ, ◌+◌, ◌-◌, ◌/◌, ◌%◌, ◌^◌, ◌<◌, ◌≡◌, refl, ap, Option, some, List, [], ◌∷◌, arith, length,
  ok, ◌==◌, if◌then◌else◌,
}
use sflow.Common.Text.{codes}
use sflow.Memory.Endian.{Endian, htonl}
use sflow.Util.Hyper.{hton_h}
use sflow.Util.Itoa.{itoa}
use sflow.Protocol.Leaves.Host.{HostParent}
use sflow.Protocol.FlowRecord.{Memory}
use sflow.Protocol.Leaves.Virtual.{VirtLeaf, VirtCpu, VirtMemory}
use sflow.Protocol.Counter.{
  Counter, host_descr, host_parent, virt_leaf, virt_cpu, virt_memory, virt_net_io,
}
use sflow.Protocol.CounterRecord.Data.{counter_bytes}
use sflow.Protocol.CounterLen.{counter_len}
use sflow.Protocol.CounterSample.Pack.{counted}
use sflow.Protocol.Sample.{Sample}
use sflow.Protocol.Sample.Bytes.{IsSample, sample_data_bytes}
use sflow.Protocol.Sequence.{All}
use sflow.Source.Types.{Source, hostv_data, as_hostv_data}
use sflow.Leaf.System.{Link}
use sflow.Leaf.Records.Laws.{
  IsStandard, records_wire, create-Gathers, attach-Gathers, finish-IsSample,
}
use sflow.Leaf.Records.Size.{counter_len-IsStandard, length-records_wire}
use sflow.Leaf.Hostphy.Links.Laws.{links_of}
use sflow.Leaf.Hostphy.Links.Totals.{LinkTotals, Counts}
use sflow.Leaf.Hostphy.Cpu.{ncpus}
use sflow.Leaf.Hostphy.Cpu.Laws.{HasSpeeds, cpu_of, cpu_pack_lem}
use sflow.Leaf.Hostphy.Memory.Laws.{
  pages, mem_bytes-pages, TellsCpus, memory_of, memory_pack-memory_of,
}
use sflow.Leaf.Hostv.{get_sample_hostv}
use sflow.Leaf.Hostv.Packs.{
  ZoneSystem, parent_pack_v, virt_node_pack, virt_cpu_pack, virt_memory_pack, cpu_time, or_zero,
}
use sflow.Leaf.Hostv.Zones.{ZoneCache, get_zone_stat, cpu, ram_rss}
use sflow.Leaf.Hostv.Descr.{zone_descr_of, descr_pack_v-short}
use sflow.Leaf.Hostv.Totals.{zone_net_io_of, virt_net_io_pack-zone_net_io_of}

-- What the samplers need of a zone: its number's digits and its name fit, its attributes are
-- there, `pct` is its share of the processors, `rss` its memory.
pub record ZoneAnswers (zs : ZoneSystem) (source : Source) (cache cache1 cache2 : ZoneCache)
    (zone_id n : ℕ) (speeds : ℕ → List ℕ) (c : Link → LinkTotals) : Type 0 where
  pub digits : List ℕ
  pub state : ℕ
  pub vcpus : List ℕ
  pub cap : ℕ
  pub pct : ℕ
  pub rss : Option ℕ
  pub is_zone : source.specific ≡ hostv_data zone_id
  pub number : itoa zone_id ≡ ok digits
  pub short : length source.name + length digits < 16
  pub cpus : TellsCpus zs.kernel n
  pub has_speeds : HasSpeeds zs.kernel n speeds
  pub has_state : (zs.attributes zone_id).status ≡ some state
  pub has_vcpus : (zs.attributes zone_id).vcpus ≡ some vcpus
  pub has_cap : (zs.attributes zone_id).phys_mcap ≡ some cap
  pub cpu_stat :
      get_zone_stat zs.cpu_moment zs.cpu_again source.name cpu cache ≡ ok (some pct, cache1)
  pub rss_stat :
      get_zone_stat zs.memory_moment zs.memory_again source.name ram_rss cache1 ≡ ok (rss, cache2)
  pub counts : All (λ di. Counts zs.kernel di (c di)) (links_of (zs.zone_links zone_id))

module _ (e : Endian) (zs : ZoneSystem) (source : Source) (cache cache1 cache2 : ZoneCache)
    (zone_id n : ℕ) (speeds : ℕ → List ℕ) (c : Link → LinkTotals)
    (a : ZoneAnswers zs source cache cache1 cache2 zone_id n speeds c) where
  abbrev pub node_of : VirtLeaf
  node_of = record {
    mhz = htonl e (htonl e (cpu_of e zs.sys n speeds).cpu_speed / 1_000_000);
    cpus = htonl e (htonl e (cpu_of e zs.sys n speeds).cpu_num);
    memory = (memory_of zs.sys e n).total;
    memory_free = (memory_of zs.sys e n).free;
    num_domains = htonl e ((zs.zone_count + (2 ^ 32 - 1)) % 2 ^ 32);
  }

  abbrev pub zone_cpu_of : VirtCpu
  zone_cpu_of = record {
    state = htonl e a.state;
    cpu_time = htonl e (cpu_time (zs.up_time % 2 ^ 32) a.pct);
    nr_virt_cpu = htonl e 0;
  }

  abbrev pub zone_memory_of : VirtMemory
  zone_memory_of = record {
    memory = hton_h e (or_zero a.rss);
    max_memory =
        hton_h e (if a.cap == 0 then pages zs.kernel (codes "physmem") * 4096 else a.cap % 2 ^ 64);
  }

  -- The parent: container 0, of type 2, which is the global zone
  abbrev pub global_zone : HostParent
  global_zone = record { container_type = htonl e 2; container_index = htonl e 0 }

  parent_pack_v-global_zone : parent_pack_v e ≡ global_zone
  unfolding parent_pack_v
  parent_pack_v-global_zone = refl

  -- The six structures
  abbrev pub zone_structures : List Counter
  zone_structures =
      host_descr (zone_descr_of e zs source.name zone_id a.digits)
      ∷ host_parent global_zone
      ∷ virt_leaf node_of
      ∷ virt_cpu zone_cpu_of
      ∷ virt_memory zone_memory_of
      ∷ virt_net_io (zone_net_io_of e zs c (links_of (zs.zone_links zone_id)))
      ∷ []

  told : ncpus zs.kernel ≡ n
  unfolding ncpus
  told = rw (a.cpus, ncpus) (omega (arith, a.has_speeds.few))

  zone_number : as_hostv_data source.specific ≡ ok zone_id
  unfolding as_hostv_data
  zone_number = ap as_hostv_data a.is_zone

  node_pack : virt_node_pack e zs ≡ ok node_of
  unfolding virt_node_pack
  node_pack =
      rw
        (
          cpu_pack_lem e zs.sys n speeds told a.has_speeds,
          memory_pack-memory_of zs.sys e n (omega (arith, a.has_speeds.few)) a.cpus,
        )
        refl

  cpu_packed : virt_cpu_pack e zs source.name zone_id cache ≡ ok (virt_cpu zone_cpu_of, cache1)
  unfolding virt_cpu_pack
  cpu_packed = rw (a.has_state, a.has_vcpus, a.cpu_stat, virt_cpu_pack) refl

  memory_packed :
      virt_memory_pack e zs source.name zone_id cache1 ≡ ok (virt_memory zone_memory_of, cache2)
  unfolding virt_memory_pack
  memory_packed =
      rw (a.has_cap, a.rss_stat, mem_bytes-pages zs.kernel zs.architecture, virt_memory_pack) refl

  module _ (d : Counter) where
    IsSized : ℕ → Type 0
    IsSized k = IsStandard e d × (length (counter_bytes e d) ≡ k)

  standard :
      IsSized (host_descr (zone_descr_of e zs source.name zone_id a.digits)) 120
      × IsSized (host_parent global_zone) 8
      × IsSized (virt_leaf node_of) 32
      × IsSized (virt_cpu zone_cpu_of) 16
      × IsSized (virt_memory zone_memory_of) 16
      × IsSized (virt_net_io (zone_net_io_of e zs c (links_of (zs.zone_links zone_id)))) 48
  unfolding counter_len IsSized
  standard = (
    counter_len-IsStandard e _ 120 tt refl (omega arith) refl,
    counter_len-IsStandard e _ 8 tt refl (omega arith) refl,
    counter_len-IsStandard e _ 32 tt refl (omega arith) refl,
    counter_len-IsStandard e _ 16 tt refl (omega arith) refl,
    counter_len-IsStandard e _ 16 tt refl (omega arith) refl,
    counter_len-IsStandard e _ 48 tt refl (omega arith) refl,
  )

  zone_structures-IsStandard : All (IsStandard e) zone_structures
  unfolding IsSized
  zone_structures-IsStandard =
      let (s1, s2, s3, s4, s5, s6) = standard in (s1.0, (s2.0, (s3.0, (s4.0, (s5.0, (s6.0, tt))))))

  pub length-zone_structures : length (records_wire e source zone_structures) ≡ 300
  unfolding IsSized
  length-zone_structures =
      let (s1, s2, s3, s4, s5, s6) = standard in
      omega
        (arith, length-records_wire e source zone_structures, s1.1, s2.1, s3.1, s4.1, s5.1, s6.1)

  -- For a zone that answers - the digits of its number and its name take fewer than 16 characters,
  -- its attributes and its statistics are there, and the kernel tells the processors, fewer than
  -- 10 ^ 7, and every counter of its links - get_sample_hostv succeeds with a well-formed sample
  -- whose data are the six records of description, parent, node, processors, memory and network.
  pub get_sample_hostv-IsSample :
      (mem : Memory)
      → (sp : Sample) × (get_sample_hostv e zs source cache ≡ ok (sp, counted source, cache2))
        × IsSample e mem sp
        × (sample_data_bytes e mem sp.content ≡ records_wire e source zone_structures)
  unfolding get_sample_hostv
  get_sample_hostv-IsSample mem =
      let (s1, (s2, (s3, (s4, (s5, (s6, _)))))) = zone_structures-IsStandard in
      let (l0, e0, g0) = create-Gathers e in
      let (l1, e1, g1) = attach-Gathers e l0 [] _ g0 s1 (omega arith) in
      let (l2, e2, g2) = attach-Gathers e l1 _ _ g1 s2 (omega arith) in
      let (l3, e3, g3) = attach-Gathers e l2 _ _ g2 s3 (omega arith) in
      let (l4, e4, g4) = attach-Gathers e l3 _ _ g3 s4 (omega arith) in
      let (l5, e5, g5) = attach-Gathers e l4 _ _ g4 s5 (omega arith) in
      let (l6, e6, g6) = attach-Gathers e l5 _ _ g5 s6 (omega arith) in
      let (sp, e_sp, is_sp, wire) =
        finish-IsSample e mem l6 zone_structures source g6 zone_structures-IsStandard (omega arith)
          (omega (arith, length-zone_structures)) in
      (
        sp,
        rw
            (
              e0,
              zone_number,
              descr_pack_v-short e zs source.name zone_id a.digits a.number a.short,
              e1,
              parent_pack_v-global_zone,
              e2,
              node_pack,
              e3,
              cpu_packed,
              e4,
              memory_packed,
              e5,
              virt_net_io_pack-zone_net_io_of e zs c zone_id a.counts,
              e6,
              e_sp,
            )
            refl,
        is_sp,
        wire,
      )
