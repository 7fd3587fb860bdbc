-- ===== src/Driver/Interrupts/Laws.antt =====
-- A round of the interrupt thread appends a sample for each packet that it reads.
use sflow.Common.{
  ℕ, ◌+◌, ◌≤◌, ◌≡◌, refl, sym, ap, ◌∙◌, subst, Bool, true, false, Bool-cases, inl, inr, ◌⊎◌, Option,
  Option-cases, none, some, List, [], ◌∷◌, ◌++◌, append_assoc, append-nil, length, length-append,
  arith, ok, for_range_inv, sum_below, sum_below-next,
}
use sflow.Memory.Endian.{Endian}
use sflow.Protocol.Sample.{Sample}
use sflow.Source.Registry.{Registry}
use sflow.Source.Registry.Laws.{IsFdTable}
use sflow.Leaf.Fit.{big_buffer, HasBuffer}
use sflow.Sender.{Moment}
use sflow.Sender.Invariant.{IsSender}
use sflow.Driver.{Daemon}
use sflow.Driver.Laws.{HasTap, Keeps, handle_packet-Handled}
use sflow.Driver.Interrupts.{readable, read_one, on_selected, interrupt_round}

Keeps-IsFdTable :
    (daemon daemon' : Daemon)
    → Keeps daemon daemon'
    → IsFdTable daemon.registry
    → IsFdTable daemon'.registry
Keeps-IsFdTable daemon daemon' kept h =
    subst IsFdTable (sym kept.0) (record { array = h.array; watched = h.watched; bound = h.bound })

Keeps-trans :
    (daemon daemon' daemon'' : Daemon)
    → Keeps daemon daemon'
    → Keeps daemon' daemon''
    → Keeps daemon daemon''
Keeps-trans daemon daemon' daemon'' k k' = (
  k'.0 ∙ ap (λ (r : Registry). record r { all_sources = daemon''.registry.all_sources }) k.0,
  λ fd tap. k'.1 fd (k.1 fd tap),
)

-- The number of packets that are read from a descriptor
abbrev pub packets_of : (ℕ → Bool) → (ℕ → Option ℕ) → ℕ → ℕ
packets_of to_read lens fd = elim (to_read fd) [
  | false ↦ 0
  | true ↦ elim (lens fd) [ none ↦ 0 | some len ↦ 1 ]
]

module _ (e : Endian) (agent_ip : List ℕ) (pkt : ℕ) (history : List Sample) (daemon : Daemon)
    (to_read : ℕ → Bool) (lens : ℕ → Option ℕ) (now : ℕ → Moment) where
  -- Before descriptor fd: a sample for each packet so far
  abbrev Before : ℕ → Daemon → Type 0
  Before fd d =
      (sps : List Sample) × IsSender e agent_ip (HasBuffer pkt) (history ++ sps) d.sender
      × (length sps ≡ sum_below fd (packets_of to_read lens))
      × Keeps daemon d

  -- What a round asks for: only watched descriptors have data, each of them has its flow_sample
  -- source, and what is read is in the buffer.
  pub record IsRound : Type 0 where
    pub table : IsFdTable daemon.registry
    pub taps : (fd : ℕ) → daemon.registry.to_watch fd ≡ true → HasTap daemon fd
    pub watched : (fd : ℕ) → to_read fd ≡ true → daemon.registry.to_watch fd ≡ true
    pub buffer : (fd : ℕ) → HasBuffer pkt (now fd).mem
    pub small : (fd len : ℕ) → lens fd ≡ some len → len ≤ big_buffer

  module _ (round : IsRound) where
    nothing_read :
        (fd : ℕ) (d : Daemon) → packets_of to_read lens fd ≡ 0 → Before fd d → Before (fd + 1) d
    nothing_read fd d zero_here (sps, h, n, kept) =
        (sps, h, n ∙ omega (arith, sum_below-next fd (packets_of to_read lens), zero_here), kept)

    read_one-Before :
        (fd : ℕ) (d : Daemon)
        → Before fd d
        → (d' : Daemon) × (read_one e agent_ip pkt to_read lens now fd d ≡ ok d')
          × Before (fd + 1) d'
    unfolding read_one
    read_one-Before fd d (sps, h, n, kept) = elim (Bool-cases (to_read fd)) [
      | inr off ↦ (
        d,
        rw (off, read_one) refl,
        nothing_read fd d (rw (off, packets_of) refl) (sps, h, n, kept),
      )
      | inl on ↦ elim (Option-cases (lens fd)) [
        | inl e_len ↦ (
          d,
          rw (on, e_len, read_one) refl,
          nothing_read fd d (rw (on, e_len, packets_of) refl) (sps, h, n, kept),
        )
        | inr (len, e_len) ↦
            let on' : d.registry.to_watch fd ≡ true =
              ap (λ (r : Registry). r.to_watch fd) kept.0 ∙ round.watched fd on in
            let (source, i, tap_data, loaded, tap, is) =
              kept.1 fd (round.taps fd (round.watched fd on)) in
            let (sp, _, d', _, (e_d, _, h', _, _, kept')) =
              handle_packet-Handled e agent_ip d (history ++ sps) (now fd) pkt len fd source i
                tap_data (Keeps-IsFdTable daemon d kept round.table) on' loaded tap is h
                (round.buffer fd) (round.small fd len e_len) in
            let one : packets_of to_read lens fd ≡ 1 = rw (on, e_len, packets_of) refl in
            (
              d',
              rw (on, e_len, read_one) e_d,
              (
                sps ++ sp ∷ [],
                rw (← append_assoc history sps (sp ∷ [])) h',
                omega (
                  arith,
                  length-append sps (sp ∷ []),
                  n,
                  one,
                  sum_below-next fd (packets_of to_read lens),
                ),
                Keeps-trans daemon d d' kept kept',
              ),
            )
      ]
    ]

    -- On a registry in which watched descriptors, sources and maxfd agree, every watched
    -- descriptor having a flow_sample source, and on a state of the sender's invariant: a round of
    -- the interrupt thread in which only watched descriptors have data, and at most 2048 bytes are
    -- read into the thread's buffer from each, ends without a fault; it appends one sample for
    -- each packet read from the descriptors up to maxfd, the sender's invariant holds, and the
    -- registry still agrees with a flow_sample source for every watched descriptor.
    pub interrupt_round-IsSender :
        (maxfd : ℕ)
        → daemon.registry.maxfd ≡ some maxfd
        → IsSender e agent_ip (HasBuffer pkt) history daemon.sender
        → (sps : List Sample) × (daemon' : Daemon) × (interrupt_round e agent_ip pkt
              (readable to_read lens now)
              daemon
            ≡ ok daemon')
          × (length sps ≡ sum_below (maxfd + 1) (packets_of to_read lens))
          × IsSender e agent_ip (HasBuffer pkt) (history ++ sps) daemon'.sender
          × IsFdTable daemon'.registry
          × ((fd : ℕ) → (daemon'.registry.to_watch fd ≡ false) ⊎ HasTap daemon' fd)
    unfolding interrupt_round on_selected sum_below
    interrupt_round-IsSender maxfd top h =
        let (d', e_d, (sps, h', n, kept)) =
          for_range_inv Before (read_one e agent_ip pkt to_read lens now) (maxfd + 1)
            (λ fd d _ before. read_one-Before fd d before) (maxfd + 1) 0 daemon (omega arith)
            ([], rw (append-nil history) h, refl, (refl, λ fd tap. tap)) in
        (
          sps,
          d',
          rw (top, interrupt_round) e_d,
          n,
          h',
          Keeps-IsFdTable daemon d' kept round.table,
          λ fd. elim (Bool-cases (d'.registry.to_watch fd)) [
            | inl on ↦
                inr (
                  kept.1 fd
                    (round.taps fd (sym (ap (λ (r : Registry). r.to_watch fd) kept.0) ∙ on)))
            | inr off ↦ inl off
          ],
        )
