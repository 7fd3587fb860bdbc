-- ===== src/Driver/Laws.antt =====
-- A packet of a watched descriptor becomes a sample of its source in the sender.
use sflow.Common.{
  ℕ, ◌+◌, ◌*◌, ◌%◌, ◌^◌, ◌≤◌, ◌≡◌, refl, ap, ◌∙◌, sym, List, [], ◌∷◌, ◌++◌, true, false, not, ltb,
  leb, ◌==◌, Bool-cases, inl, inr, arith, ok, assert,
}
use sflow.Memory.Endian.{Endian}
use sflow.ExpandingArray.{get}
use sflow.ExpandingArray.Laws.{lookup, get_lem, lookup_beyond}
use sflow.Protocol.Sample.{Sample}
use sflow.Source.Types.{Source, Interrupt, FlowsampleData, flowsample, type_number}
use sflow.Source.Registry.Laws.{IsFdTable}
use sflow.Leaf.Flowsample.{get_sample_flowsample}
use sflow.Leaf.Flowsample.Laws.{IsFlowsample}
use sflow.Leaf.Fit.{big_buffer, HasBuffer, get_sample_flowsample-IsFit}
use sflow.Sender.{Sender, Moment}
use sflow.Sender.Invariant.{IsSender}
use sflow.Sender.Calls.{append_sample_to_send-IsSender}
use sflow.Driver.Stored.{load-store, load-store_other}
use sflow.Driver.{Daemon, load, store, handle_packet}

module _ (daemon : Daemon) where
  -- A watched descriptor has a cell in the array.
  watched-get :
      (fd : ℕ)
      → IsFdTable daemon.registry
      → daemon.registry.to_watch fd ≡ true
      → get daemon.registry.fd_sources fd ≡ ok (lookup daemon.registry.fd_sources fd)
  watched-get fd h on =
      get_lem daemon.registry.fd_sources fd h.array
      ∙ (elim (Bool-cases (ltb fd daemon.registry.fd_sources.capacity)) [
        | inl t ↦ rw t refl
        | inr t ↦ absurd (
            true≢false (
              sym on
              ∙ h.watched fd
              ∙ ap (λ (a : ℕ). not (a == 0))
                  (lookup_beyond daemon.registry.fd_sources fd h.array (ground (arith, t)))))
      ])
    where
      true≢false : true ≡ false → ⊥
      true≢false d = cc

  -- The descriptor's cell points to a flow_sample source.
  abbrev pub HasTap : ℕ → Type 0
  HasTap fd =
      (source : Source) × (i : Interrupt) × (d : FlowsampleData) × (load
          (lookup daemon.registry.fd_sources fd) daemon.registry.all_sources
        ≡ ok source)
      × (source.source_type ≡ flowsample)
      × IsFlowsample source i d

-- Only the sources and the sender have changed.
abbrev pub Keeps : Daemon → Daemon → Type 0
Keeps daemon daemon' =
    (daemon'.registry ≡ record daemon.registry { all_sources = daemon'.registry.all_sources })
    × ((fd : ℕ) → HasTap daemon fd → HasTap daemon' fd)

module _ (e : Endian) (agent_ip : List ℕ) (daemon : Daemon) where
  -- Storing a flow_sample source through the pointer of a descriptor keeps those of all others.
  stored-HasTap :
      (address : ℕ) (old new : Source) (i : Interrupt) (d : FlowsampleData) (sender : Sender)
      → load address daemon.registry.all_sources ≡ ok old
      → new.source_type ≡ flowsample
      → IsFlowsample new i d
      → (fd : ℕ) → HasTap daemon fd
      → HasTap
          (record {
            registry = record daemon.registry {
              all_sources = store address new daemon.registry.all_sources;
            };
            sender = sender;
          })
          fd
  stored-HasTap address old new i d sender loaded tap is fd (source, i', d', loaded', tap', is') =
      let cell = lookup daemon.registry.fd_sources fd in
      elim (Bool-cases (cell == address)) [
        | inl t ↦
            let same : cell ≡ address = ground (arith, t) in
            (
              new,
              i,
              d,
              rw same (load-store address old new daemon.registry.all_sources loaded),
              tap,
              is,
            )
        | inr t ↦ (
          source,
          i',
          d',
          load-store_other address cell new daemon.registry.all_sources (ground (arith, t))
              ∙ loaded',
          tap',
          is',
        )
      ]

  -- A packet of a watched descriptor is handled without a fault: `sp` is its sample, `source'` its
  -- source afterwards, and besides that source and the sender the daemon stays as it is.
  abbrev pub Handled :
      List Sample → Moment → (pkt len fd : ℕ) → Source → Sample → Source → Daemon → Type 0
  Handled history now pkt len fd source sp source' daemon' =
      (handle_packet e agent_ip now pkt len fd daemon ≡ ok daemon')
      × (get_sample_flowsample e (record source { count = source.count + 1 }) pkt len
          ≡ ok (sp, source'))
      × IsSender e agent_ip (HasBuffer pkt) (history ++ sp ∷ []) daemon'.sender
      × (load (lookup daemon'.registry.fd_sources fd) daemon'.registry.all_sources ≡ ok source')
      × (source'.count ≡ source.count + 1)
      × Keeps daemon daemon'

  pub handle_packet-Handled :
      (history : List Sample) (now : Moment) (pkt len fd : ℕ) (source : Source) (i : Interrupt)
      (d : FlowsampleData)
      → IsFdTable daemon.registry
      → daemon.registry.to_watch fd ≡ true
      → load (lookup daemon.registry.fd_sources fd) daemon.registry.all_sources ≡ ok source
      → source.source_type ≡ flowsample
      → IsFlowsample source i d
      → IsSender e agent_ip (HasBuffer pkt) history daemon.sender
      → HasBuffer pkt now.mem
      → len ≤ big_buffer
      → (sp : Sample) × (source' : Source) × (daemon' : Daemon) × IsFlowsample source' i
          (record d { pool = (source.count + 1) * i.rate % 2 ^ 32 })
        × Handled history now pkt len fd source sp source' daemon'
  unfolding handle_packet
  handle_packet-Handled history now pkt len fd source i d table on loaded tap is h has small =
      let passes : assert (leb (type_number source.source_type) (type_number flowsample)) ≡ ok tt =
        ap (λ t. assert (leb (type_number t) (type_number flowsample))) tap in
      let counted = record source { count = source.count + 1 } in
      let (sp, source', e_sp, fit, is', type_kept, count_kept) =
        get_sample_flowsample-IsFit e agent_ip counted now.mem i d pkt len
          (record { kind = is.kind; specific = is.specific; ent = is.ent; fmt = is.fmt }) has
          small in
      let (sender, e_sender, h') =
        append_sample_to_send-IsSender e agent_ip (HasBuffer pkt) history now sp daemon.sender h has
          fit in
      let address = lookup daemon.registry.fd_sources fd in
      (
        sp,
        source',
        record {
          registry = record daemon.registry {
            all_sources = store address source' daemon.registry.all_sources;
          };
          sender = sender;
        },
        is',
        (
          rw (watched-get daemon fd table on, loaded, passes, e_sp, e_sender) refl,
          e_sp,
          h',
          load-store address source source' daemon.registry.all_sources loaded,
          count_kept,
          (
            refl,
            stored-HasTap address source source' i
                (record d { pool = counted.count * i.rate % 2 ^ 32 }) sender loaded
                (type_kept ∙ tap) is',
          ),
        ),
      )

  -- On a registry in which watched descriptors and sources agree and a state of the sender's
  -- invariant: a packet of at most 2048 bytes read into the thread's buffer from a watched
  -- descriptor, whose source is a flow_sample source, is handled without a fault: the source
  -- counts it, the sample that get_sample_flowsample makes of the packet for that source is the
  -- last one of the history, the sender's invariant holds, and the source is stored, still a
  -- flow_sample source, with its new count and its pool set to that count times its rate in 32
  -- bits.
  pub handle_packet-IsSender :
      (history : List Sample) (now : Moment) (pkt len fd : ℕ) (source : Source) (i : Interrupt)
      (d : FlowsampleData)
      → IsFdTable daemon.registry
      → daemon.registry.to_watch fd ≡ true
      → load (lookup daemon.registry.fd_sources fd) daemon.registry.all_sources ≡ ok source
      → source.source_type ≡ flowsample
      → IsFlowsample source i d
      → IsSender e agent_ip (HasBuffer pkt) history daemon.sender
      → HasBuffer pkt now.mem
      → len ≤ big_buffer
      → (sp : Sample) × (source' : Source) × (daemon' : Daemon) × (handle_packet e agent_ip now pkt
            len fd daemon
          ≡ ok daemon')
        × (get_sample_flowsample e (record source { count = source.count + 1 }) pkt len
            ≡ ok (sp, source'))
        × IsSender e agent_ip (HasBuffer pkt) (history ++ sp ∷ []) daemon'.sender
        × (load (lookup daemon'.registry.fd_sources fd) daemon'.registry.all_sources ≡ ok source')
        × IsFlowsample source' i (record d { pool = (source.count + 1) * i.rate % 2 ^ 32 })
        × (source'.count ≡ source.count + 1)
  handle_packet-IsSender history now pkt len fd source i d table on loaded tap is h has small =
      let (sp, source', daemon', is', (e_d, e_sp, h', loaded', n, _)) =
        handle_packet-Handled history now pkt len fd source i d table on loaded tap is h has
          small in
      (sp, source', daemon', e_d, e_sp, h', loaded', is', n)
