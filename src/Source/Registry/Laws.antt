-- ===== src/Source/Registry/Laws.antt =====
-- The three structures of the watched descriptors agree.
use sflow.Common.{
  ℕ, zero, suc, ◌≤◌, ◌<◌, ◌^◌, ◌≡◌, refl, ap, ◌∙◌, ◌≢◌, arith, true, false, not, Bool-cases, ◌⊎◌,
  inl, inr, [], ◌∷◌, ◌++◌, ltb, lt→ltb, ==_iff, ◌==◌, if◌then◌else◌, Option, none, some, ok,
}
use sflow.ExpandingArray.{ExpandingArray, get}
use sflow.ExpandingArray.Laws.{IsArray, lookup, set_at_lem, get_lem, lookup_beyond}
use sflow.Source.Types.{Source, flowsample, Interrupt, interrupt}
use sflow.Source.Registry.{
  Registry, set_fd, raise, Spawned, watch, add_source_type, last_source, is_fd, found_or, unwatch,
  stop_source,
}

-- A descriptor is watched if and only if there is a source for it, and then it is `maxfd` at most.
pub record IsFdTable (r : Registry) : Type 0 where
  pub array : IsArray r.fd_sources
  pub watched : (fd : ℕ) → r.to_watch fd ≡ not (lookup r.fd_sources fd == 0)
  pub bound : (fd : ℕ) → (r.to_watch fd ≡ false) ⊎ ((top : ℕ) × (r.maxfd ≡ some top) × (fd ≤ top))

-- A flow_sample source
pub record IsTap (src : Source) (i : Interrupt) : Type 0 where
  pub source_type : src.source_type ≡ flowsample
  pub kind : src.kind ≡ interrupt i
  pub small : i.fd < 2 ^ 30

raise_lem :
    (m : Option ℕ) (fd j : ℕ)
    → ((top : ℕ) × (m ≡ some top) × (j ≤ top)) ⊎ (j ≡ fd)
    → (top : ℕ) × (raise m fd ≡ some top) × (j ≤ top)
raise_lem none fd j (inl (top, e, le)) = absurd (none≢some e)
  where
    none≢some : none ≡ some top → ⊥
    none≢some h = cc
raise_lem none fd j (inr e) = (fd, refl, omega arith)
raise_lem (some m) fd j h =
    let le : (j ≤ m) ⊎ (j ≡ fd) = elim h [
      | inl (top, e, le) ↦ inl (omega (arith, some-injective e))
      | inr e ↦ inr e
    ] in
    elim (Bool-cases (ltb m fd)) [
      | inl t ↦ (fd, rw t refl, ground (arith, le))
      | inr t ↦ (m, rw t refl, ground (arith, le))
    ]
  where
    some-injective : {a b : ℕ} → some a ≡ some b → a ≡ b
    some-injective h = cc

-- The loop of sflow_stop_source finds the last source below `n`.
last_source_lem :
    (n : ℕ) (arr : ExpandingArray)
    → IsArray arr
    → n ≤ arr.capacity
    → (last : Option ℕ) × (last_source n arr ≡ ok last)
      × ((j : ℕ) → j < n → (lookup arr j ≡ 0) ⊎ ((top : ℕ) × (last ≡ some top) × (j ≤ top)))
unfolding last_source
last_source_lem zero arr v le = (none, refl, λ j lt. absurd (omega arith))
last_source_lem (suc i) arr v le =
    let (last, e, above) = last_source_lem i arr v (omega arith) in
    let at : get arr i ≡ ok (lookup arr i) =
      get_lem arr i v ∙ rw (lt→ltb i arr.capacity (omega arith)) refl in
    elim (Bool-cases (lookup arr i == 0)) [
      | inl t ↦ (
        last,
        rw (at, t) e,
        λ j lt. elim (Bool-cases (j == i)) [
          | inl same ↦ inl (ap (lookup arr) ((==_iff j i).0 same) ∙ (==_iff (lookup arr i) 0).0 t)
          | inr other ↦ above j (ground (arith, other))
        ],
      )
      | inr t ↦ (some i, rw (at, t) refl, λ j lt. inr (i, refl, omega arith))
    ]

-- On a registry in which watched descriptors, the sources by descriptor and maxfd agree, adding a
-- flow_sample source on a descriptor below 2 ^ 30, at an address other than NULL, succeeds and
-- keeps the agreement: its descriptor is watched, as are those that were, and it is the last one
-- of all sources.
pub add_source_type-IsFdTable :
    (address : ℕ) (spawned : Spawned) (src : Source) (i : Interrupt) (r : Registry)
    → IsFdTable r
    → IsTap src i
    → address ≢ 0
    → (r' : Registry) × (add_source_type address spawned src r ≡ ok (0, r'))
      × IsFdTable r'
      × ((fd : ℕ) → r'.to_watch fd ≡ (if fd == i.fd then true else r.to_watch fd))
      × (r'.all_sources ≡ r.all_sources ++ (address, src) ∷ [])
unfolding add_source_type watch
add_source_type-IsFdTable address spawned src i r h tap there =
    let (arr, e, v, _, _, same) = set_at_lem r.fd_sources i.fd address h.array tap.small in
    (
      record {
        maxfd = raise r.maxfd i.fd;
        to_watch = set_fd r.to_watch i.fd true;
        fd_sources = arr;
        all_sources = r.all_sources ++ (address, src) ∷ [];
      },
      rw (tap.source_type, tap.kind, e) refl,
      record {
        array = v;
        watched = λ fd. elim (Bool-cases (fd == i.fd)) [
          | inl t ↦ rw (same fd, t, not_zero) refl
          | inr t ↦ rw (same fd, t) (h.watched fd)
        ];
        bound = λ fd. elim (Bool-cases (fd == i.fd)) [
          | inl t ↦ inr (raise_lem r.maxfd i.fd fd (inr ((==_iff fd i.fd).0 t)))
          | inr t ↦ elim (h.bound fd) [
            | inl off ↦ inl (rw t off)
            | inr top ↦ inr (raise_lem r.maxfd i.fd fd (inl top))
          ]
        ];
      },
      λ fd. refl,
      refl,
    )
  where
    not_zero : (address == 0) ≡ false
    not_zero = elim (Bool-cases (address == 0)) [
      | inl t ↦ absurd (there ((==_iff address 0).0 t))
      | inr t ↦ t
    ]

-- From the capacity down it finds the highest of all.
highest_source :
    (arr : ExpandingArray)
    → IsArray arr
    → (last : Option ℕ) × (last_source arr.capacity arr ≡ ok last)
      × ((j : ℕ) → (lookup arr j ≡ 0) ⊎ ((top : ℕ) × (last ≡ some top) × (j ≤ top)))
highest_source arr v =
    let (last, e, above) = last_source_lem arr.capacity arr v (omega arith) in
    (
      last,
      e,
      λ j. elim (Bool-cases (ltb j arr.capacity)) [
        | inl t ↦ above j (ground (arith, t))
        | inr t ↦ inl (lookup_beyond arr j v (ground (arith, t)))
      ],
    )

-- On such a registry stopping a flow_sample source succeeds and keeps the agreement: every
-- descriptor that is still watched is maxfd at most, its own is not watched, and all others are as
-- they were.
pub stop_source-IsFdTable :
    (cancel : ℕ → ℕ) (src : Source) (i : Interrupt) (r : Registry)
    → IsFdTable r
    → IsTap src i
    → (r' : Registry) × (stop_source cancel src r ≡ ok (0, r'))
      × IsFdTable r'
      × ((fd : ℕ) → r'.to_watch fd ≡ (if fd == i.fd then false else r.to_watch fd))
      × (r'.all_sources ≡ r.all_sources)
unfolding stop_source unwatch
stop_source-IsFdTable cancel src i r h tap =
    let (arr, e, v, _, _, same) = set_at_lem r.fd_sources i.fd 0 h.array tap.small in
    let (last, e_last, above) = highest_source arr v in
    let watched : (fd : ℕ) → set_fd r.to_watch i.fd false fd ≡ not (lookup arr fd == 0) = λ fd.
      elim (Bool-cases (fd == i.fd)) [
        | inl t ↦ rw (same fd, t) refl
        | inr t ↦ rw (same fd, t) (h.watched fd)
      ] in
    elim (Bool-cases (is_fd r.maxfd i.fd)) [
      | inl was ↦ (
        record {
          maxfd = found_or last r.maxfd;
          to_watch = set_fd r.to_watch i.fd false;
          fd_sources = arr;
          all_sources = r.all_sources;
        },
        rw (tap.source_type, tap.kind, e, was, e_last) refl,
        record {
          array = v;
          watched = watched;
          bound = λ fd. elim (above fd) [
            | inl gone ↦ inl (watched fd ∙ ap (λ (a : ℕ). not (a == 0)) gone)
            | inr (top, e_top, le) ↦ inr (top, ap (λ l. found_or l r.maxfd) e_top, le)
          ];
        },
        λ fd. refl,
        refl,
      )
      | inr is_not ↦ (
        record {
          maxfd = r.maxfd;
          to_watch = set_fd r.to_watch i.fd false;
          fd_sources = arr;
          all_sources = r.all_sources;
        },
        rw (tap.source_type, tap.kind, e, is_not) refl,
        record {
          array = v;
          watched = watched;
          bound = λ fd. elim (Bool-cases (fd == i.fd)) [
            | inl t ↦ inl (rw t refl)
            | inr t ↦ elim (h.bound fd) [ inl off ↦ inl (rw t off) | inr top ↦ inr top ]
          ];
        },
        λ fd. refl,
        refl,
      )
    ]
