-- ===== src/Driver/Poll/Laws.antt =====
-- A polling source that answers in every round: every round adds its sample to the sender.
use sflow.Common.{
  ℕ, suc, ◌+◌, ◌≤◌, ◌≡◌, refl, ap, ◌∙◌, ◌⊎◌, inl, inr, List, [], ◌∷◌, ◌++◌, append_assoc,
  append-nil, arith, length, true, ltb, ok,
}
use sflow.Memory.Endian.{Endian}
use sflow.Protocol.FlowRecord.{Memory}
use sflow.Protocol.Sample.{Sample}
use sflow.Source.Types.{
  Source, Poll, poll, flowsample, ifgeneric, phyhost, ifgeneric_data, as_poll, type_number,
}
use sflow.Leaf.System.{Link}
use sflow.Leaf.Ifgeneric.Counters.{LinkCounters, Reports}
use sflow.Leaf.Hostphy.Laws.{Answers}
use sflow.Leaf.Hostphy.Links.Laws.{links_of}
use sflow.Leaf.Hostphy.Links.Totals.{LinkTotals}
use sflow.Leaf.Hostv.Zones.{ZoneCache}
use sflow.Leaf.Fit.{get_sample_ifgeneric-IsFit, get_sample_hostphy-IsFit}
use sflow.Sender.Invariant.{IsSender, IsFit}
use sflow.Sender.Calls.{append_sample_to_send-IsSender}
use sflow.Driver.{load, store}
use sflow.Driver.Stored.{load-store}
use sflow.Driver.Poll.{Round, PollState, keeping, get_sample, poll_round, poll_rounds, poll_thread}

-- The same source after other numbers of samples
abbrev at_count : Source → ℕ → Source
at_count source k = record source { count = k }

module _ (e : Endian) (agent_ip : List ℕ) (Sane : Memory → Type 0) where
  -- The round has what the source's sampler asks for: a link and all its statistics, or a host of
  -- at most 58 links that answers.
  abbrev pub IsReady : Source → Round → Type 0
  IsReady source round =
      Sane round.now.mem
      × (((datalink : ℕ) × (c : LinkCounters) × (source.source_type ≡ ifgeneric)
            × (source.specific ≡ ifgeneric_data datalink)
            × Reports round.zs.kernel source.name c)
          ⊎ ((n : ℕ) × (speeds : ℕ → List ℕ) × (c : Link → LinkTotals) × (source.source_type
                ≡ phyhost)
              × Answers round.zs.sys n speeds c
              × (length (links_of round.zs.links) ≤ 58)))

  abbrev pub AreReady : Source → List Round → Type 0
  AreReady source [] = Unit {0}
  AreReady source (round ∷ rounds) = IsReady source round × AreReady source rounds

  sampled :
      (source : Source) (round : Round) (k : ℕ) (cache : ZoneCache)
      → IsReady source round
      → (sp : Sample) × (get_sample e round source.source_type (at_count source k) cache
          ≡ ok (sp, at_count source (k + 1), cache))
        × IsFit e agent_ip Sane sp
  unfolding get_sample
  sampled source round k cache (sane, inl (datalink, c, t, is, there)) =
      let (sp, e_sp, fit) =
        get_sample_ifgeneric-IsFit e agent_ip (at_count source k) round.zs.kernel datalink c Sane is
          there in
      (
        sp,
        ap (λ u. get_sample e round u (at_count source k) cache) t ∙ ap (keeping cache) e_sp,
        fit,
      )
  sampled source round k cache (sane, inr (n, speeds, c, t, answers, few)) =
      let (sp, e_sp, iff) =
        get_sample_hostphy-IsFit e agent_ip (at_count source k) round.zs.sys n speeds c Sane
          answers in
      (
        sp,
        ap (λ u. get_sample e round u (at_count source k) cache) t ∙ ap (keeping cache) e_sp,
        iff.1 few,
      )

  polled :
      (history : List Sample) (address : ℕ) (source : Source) (p : Poll) (k : ℕ) (round : Round)
      (st : PollState)
      → source.kind ≡ poll p
      → IsReady source round
      → load address st.daemon.registry.all_sources ≡ ok (at_count source k)
      → IsSender e agent_ip Sane history st.daemon.sender
      → (sp : Sample) × (st' : PollState) × (poll_round e agent_ip address round st ≡ ok st')
        × (load address st'.daemon.registry.all_sources ≡ ok (at_count source (k + 1)))
        × IsSender e agent_ip Sane (history ++ sp ∷ []) st'.daemon.sender
  unfolding poll_round
  polled history address source p k round st is ready loaded h =
      let (sp, e_sp, fit) = sampled source round k st.cache ready in
      let (sender, e_sender, h') =
        append_sample_to_send-IsSender e agent_ip Sane history round.now sp st.daemon.sender h
          ready.0 fit in
      let is_poll : as_poll source.kind ≡ ok p = ap as_poll is in
      (
        sp,
        record {
          daemon = record {
            registry = record st.daemon.registry {
              all_sources = store address (at_count source (k + 1)) st.daemon.registry.all_sources;
            };
            sender = sender;
          };
          cache = st.cache;
        },
        rw (loaded, is_poll, e_sp, e_sender) refl,
        load-store address (at_count source k) (at_count source (k + 1))
            st.daemon.registry.all_sources loaded,
        h',
      )

  polled_all :
      (rounds : List Round) (history : List Sample) (address : ℕ) (source : Source) (p : Poll)
      (k : ℕ) (st : PollState)
      → source.kind ≡ poll p
      → AreReady source rounds
      → load address st.daemon.registry.all_sources ≡ ok (at_count source k)
      → IsSender e agent_ip Sane history st.daemon.sender
      → (sps : List Sample) × (st' : PollState) × (poll_rounds e agent_ip address rounds st
          ≡ ok st')
        × (length sps ≡ length rounds)
        × (load address st'.daemon.registry.all_sources ≡ ok (at_count source (k + length rounds)))
        × IsSender e agent_ip Sane (history ++ sps) st'.daemon.sender
  unfolding poll_rounds
  polled_all [] history address source p k st is ready loaded h =
      let same : k + 0 ≡ k = omega arith in
      ([], st, refl, refl, rw same loaded, rw (append-nil history) h)
  polled_all (round ∷ rounds) history address source p k st is (ready, more) loaded h =
      let (sp, st1, e1, loaded1, h1) =
        polled history address source p k round st is ready loaded h in
      let (sps, st2, e2, n, loaded2, h2) =
        polled_all rounds (history ++ sp ∷ []) address source p (k + 1) st1 is more loaded1 h1 in
      let next : k + suc (length rounds) ≡ k + 1 + length rounds = omega arith in
      (
        sp ∷ sps,
        st2,
        rw e1 e2,
        ap suc n,
        rw next loaded2,
        rw (← append_assoc history (sp ∷ []) sps) h2,
      )

  -- In a state of the sender's invariant, the thread of a link source or of the physical host that
  -- answers in every round, a host having at most 58 links (and an allocator that leaves the
  -- length word of the freed adapters in place), runs without a fault: each round appends one
  -- sample to the sender, behind all others, the sender's invariant holds, and the source has
  -- counted a sample for each round.
  pub poll_thread-IsSender :
      (rounds : List Round) (history : List Sample) (address : ℕ) (source : Source) (p : Poll)
      (st : PollState)
      → source.kind ≡ poll p
      → ltb (type_number flowsample) (type_number source.source_type) ≡ true
      → AreReady source rounds
      → load address st.daemon.registry.all_sources ≡ ok source
      → IsSender e agent_ip Sane history st.daemon.sender
      → (sps : List Sample) × (st' : PollState) × (poll_thread e agent_ip address rounds st
          ≡ ok st')
        × (length sps ≡ length rounds)
        × (load address st'.daemon.registry.all_sources
            ≡ ok (record source { count = source.count + length rounds }))
        × IsSender e agent_ip Sane (history ++ sps) st'.daemon.sender
  unfolding poll_thread
  poll_thread-IsSender rounds history address source p st is type_ok ready loaded h =
      let (sps, st', e_st, n, loaded', h') =
        polled_all rounds history address source p source.count st is ready loaded h in
      (sps, st', rw (loaded, type_ok) e_st, n, loaded', h')
