-- ===== src/Leaf/Fit.antt =====
-- The samples that the sources take are ones that the sender has room for.
use sflow.Common.{
  ◌%◌, ◌^◌, refl, Outcome, ◌+◌, ◌↔◌, ℕ, ◌*◌, ◌≤◌, ◌≡◌, sym, ap, ◌∙◌, subst, ok-injective, List, [],
  arith, length, ok,
}
use sflow.Memory.Endian.{Endian}
use sflow.Protocol.FlowRecord.{Memory}
use sflow.Protocol.CounterSample.Pack.{counted}
use sflow.Protocol.Sample.{Sample}
use sflow.Protocol.Sample.Bytes.{IsSample, sample_data_bytes}
use sflow.Source.Types.{Source, Interrupt, FlowsampleData, ifgeneric_data}
use sflow.Leaf.Flowsample.{get_sample_flowsample}
use sflow.Leaf.Flowsample.Laws.{IsFlowsample, get_sample_flowsample-IsSample}
use sflow.Util.Kstat.{Kernel}
use sflow.Leaf.Ifgeneric.{get_sample_ifgeneric}
use sflow.Leaf.Ifgeneric.Laws.{sample_wire, get_sample_ifgeneric-IsSample, length-sample_wire}
use sflow.Leaf.System.{Link, System}
use sflow.Leaf.Records.Laws.{records_wire}
use sflow.Leaf.Hostv.{get_sample_hostv}
use sflow.Leaf.Hostv.Zones.{ZoneCache}
use sflow.Leaf.Hostv.Packs.{ZoneSystem}
use sflow.Leaf.Hostv.Laws.{
  ZoneAnswers, zone_structures, length-zone_structures, get_sample_hostv-IsSample,
}
use sflow.Leaf.Hostphy.{get_sample_hostphy}
use sflow.Leaf.Hostphy.Links.Laws.{links_of}
use sflow.Leaf.Hostphy.Links.Totals.{LinkTotals}
use sflow.Leaf.Hostphy.Laws.{Answers, structures, length-structures, get_sample_hostphy-IsSample}
use sflow.Leaf.Ifgeneric.Counters.{LinkCounters, Reports}
use sflow.Sender.Invariant.{IsFit, node_size}

-- SFLOW_BIGBUFFER, the size of the buffer that packets are read into
abbrev pub big_buffer : ℕ
big_buffer = 1024 * 2

-- The memories in which the buffer at `pkt` is there
abbrev pub HasBuffer : ℕ → Memory → Type 0
HasBuffer pkt mem = big_buffer ≤ length (mem pkt)

module _ (e : Endian) (agent_ip : List ℕ) (source : Source) where
  -- For a flow_sample source and a packet of at most 2048 bytes read into the buffer of that size,
  -- get_sample_flowsample succeeds with a sample that is well formed in every memory that has the
  -- buffer, and that a packet has room for; the source is still a flow_sample source, with its
  -- pool set to count times rate in 32 bits, and its type and count have not changed.
  pub get_sample_flowsample-IsFit :
      (mem : Memory) (i : Interrupt) (d : FlowsampleData) (pkt len : ℕ)
      → IsFlowsample source i d
      → HasBuffer pkt mem
      → len ≤ big_buffer
      → (sp : Sample) × (source' : Source) × (get_sample_flowsample e source pkt len
          ≡ ok (sp, source'))
        × IsFit e agent_ip (HasBuffer pkt) sp
        × IsFlowsample source' i (record d { pool = source.count * i.rate % 2 ^ 32 })
        × (source'.source_type ≡ source.source_type)
        × (source'.count ≡ source.count)
  get_sample_flowsample-IsFit mem i d pkt len is has small =
      let (sp, source', e_sp, is_sp, size, tap, count_kept, type_kept) =
        get_sample_flowsample-IsSample e mem source i d is pkt len (omega arith) in
      (
        sp,
        source',
        e_sp,
        record {
          is_sample = λ mem' has'.
              let (sp', source'', e_sp', is_sp', _, _, _, _) =
                get_sample_flowsample-IsSample e mem' source i d is pkt len (omega arith) in
              subst (IsSample e mem')
                (ap (λ (p : Sample × Source). p.0) (ok-injective (sym e_sp' ∙ e_sp))) is_sp';
          small = omega (arith, is_sp.len, size);
        },
        tap,
        type_kept,
        count_kept,
      )

  -- A sampler that, in every memory, makes a well-formed sample with the same data: the sample's
  -- size is theirs, and it is well formed in every memory.
  made-node_size :
      {A : Type 0} (made : Outcome A) (pack : Sample → A) (unpack : A → Sample) (wire : List ℕ)
      → ((sp : Sample) → unpack (pack sp) ≡ sp)
      → ((mem : Memory)
          → (sp : Sample) × (made ≡ ok (pack sp))
            × IsSample e mem sp
            × (sample_data_bytes e mem sp.content ≡ wire))
      → (sp : Sample) × (made ≡ ok (pack sp))
        × (node_size e sp ≡ length wire + 16)
        × ((mem : Memory) → IsSample e mem sp)
  made-node_size made pack unpack wire back taken =
      let (sp, e_sp, is_sp, bytes) = taken (λ _. []) in
      (
        sp,
        e_sp,
        omega (arith, is_sp.len, ap length bytes),
        λ mem.
            let (sp', e_sp', is_sp', _) = taken mem in
            subst (IsSample e mem)
              (sym (back sp') ∙ ap unpack (ok-injective (sym e_sp' ∙ e_sp)) ∙ back sp) is_sp',
      )

  -- For a link source of which every statistic is there, get_sample_ifgeneric succeeds with a
  -- sample that is well formed in every memory and that a packet has room for.
  pub get_sample_ifgeneric-IsFit :
      (kernel : Kernel) (datalink : ℕ) (c : LinkCounters) (Sane : Memory → Type 0)
      → source.specific ≡ ifgeneric_data datalink
      → Reports kernel source.name c
      → (sp : Sample) × (get_sample_ifgeneric e kernel source ≡ ok (sp, counted source))
        × IsFit e agent_ip Sane sp
  get_sample_ifgeneric-IsFit kernel datalink c Sane is there =
      let (sp, e_sp, size, well) =
        made-node_size (get_sample_ifgeneric e kernel source) (λ s. (s, counted source)) (λ p. p.0)
          (sample_wire source datalink c) (λ s. refl)
          (get_sample_ifgeneric-IsSample e kernel source datalink c is there) in
      (
        sp,
        e_sp,
        record {
          is_sample = λ mem _. well mem;
          small = omega (arith, size, length-sample_wire e kernel source datalink c is there);
        },
      )

  -- On a system that answers, whose allocator leaves the length word of the freed adapters in
  -- place, get_sample_hostphy succeeds, and its sample is well formed and one that a packet has
  -- room for exactly when the host has at most 58 links.
  pub get_sample_hostphy-IsFit :
      (sys : System) (n : ℕ) (speeds : ℕ → List ℕ) (c : Link → LinkTotals) (Sane : Memory → Type 0)
      → Answers sys n speeds c
      → (sp : Sample) × (get_sample_hostphy e sys source ≡ ok (sp, counted source))
        × (IsFit e agent_ip Sane sp ↔ (length (links_of sys.links) ≤ 58))
  get_sample_hostphy-IsFit sys n speeds c Sane answers =
      let (sp, e_sp, size, well) =
        made-node_size (get_sample_hostphy e sys source) (λ s. (s, counted source)) (λ p. p.0)
          (records_wire e source (structures e sys n speeds c answers)) (λ s. refl)
          (λ mem. get_sample_hostphy-IsSample e sys n speeds c answers mem source) in
      let bytes = length-structures e sys n speeds c answers source in
      (
        sp,
        e_sp,
        (
          (λ fit. omega (arith, fit.small, size, bytes)),
          (λ few. record { is_sample = λ mem _. well mem; small = omega (arith, size, bytes) }),
        ),
      )

  -- For a zone that answers, get_sample_hostv succeeds with a sample that is well formed in every
  -- memory and that a packet has room for.
  pub get_sample_hostv-IsFit :
      (zs : ZoneSystem) (cache cache1 cache2 : ZoneCache) (zone_id n : ℕ) (speeds : ℕ → List ℕ)
      (c : Link → LinkTotals) (Sane : Memory → Type 0)
      → ZoneAnswers zs source cache cache1 cache2 zone_id n speeds c
      → (sp : Sample) × (get_sample_hostv e zs source cache ≡ ok (sp, counted source, cache2))
        × IsFit e agent_ip Sane sp
  get_sample_hostv-IsFit zs cache cache1 cache2 zone_id n speeds c Sane a =
      let made = get_sample_hostv-IsSample e zs source cache cache1 cache2 zone_id n speeds c a in
      let bytes = length-zone_structures e zs source cache cache1 cache2 zone_id n speeds c a in
      let (sp, e_sp, size, well) =
        made-node_size (get_sample_hostv e zs source cache) (λ s. (s, counted source, cache2))
          (λ p. p.0)
          (records_wire e source
            (zone_structures e zs source cache cache1 cache2 zone_id n speeds c a))
          (λ s. refl) made in
      (sp, e_sp, record { is_sample = λ mem _. well mem; small = omega (arith, size, bytes) })
