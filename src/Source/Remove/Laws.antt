-- ===== src/Source/Remove/Laws.antt =====
-- What sflow_remove_source leaves.
use sflow.Common.{
  ℕ, ◌≡◌, refl, Bool, true, false, ◌||◌, ◌&&◌, Bool-cases, ◌⊎◌, inl, inr, List, [], ◌∷◌,
  if◌then◌else◌, ◌==◌, ok, fault, uninitialised,
}
use sflow.Common.Text.{codes}
use sflow.Protocol.Sequence.{All}
use sflow.Source.Text.{starts_with}
use sflow.Source.Text.Laws.{NoTab, without_blanks, remove_space_lem}
use sflow.Source.Types.{
  Source, SourceType, flowsample, inter_poll_separation, ifgeneric, phyhost, vhost, flowstat,
  type_number, Poll, poll, Interrupt,
}
use sflow.Source.Registry.{Registry, stop_source}
use sflow.Source.Registry.Laws.{IsFdTable, IsTap, stop_source-IsFdTable}
use sflow.Source.Remove.{
  type_of, TypeFilter, one_type, all_types, unset, filter_of, type_matches, matches, stop_if,
  remove_each, remove_source,
}

-- The same tests, for a filter that is set
abbrev type_fits : TypeFilter → SourceType → Bool
type_fits (one_type t) u = type_number u == type_number t
type_fits all_types u = true
type_fits unset u = false

abbrev pub fits : TypeFilter → List ℕ → Source → Bool
fits filter srcname src =
    (starts_with srcname (codes "all") || starts_with src.name srcname)
    && type_fits filter src.source_type

abbrev pub left : TypeFilter → List ℕ → List (ℕ × Source) → List (ℕ × Source)
left filter srcname [] = []
left filter srcname ((address, src) ∷ rest) =
    if fits filter srcname src
    then left filter srcname rest
    else (address, src) ∷ left filter srcname rest

abbrev pub is_set : TypeFilter → Bool
is_set (one_type t) = true
is_set all_types = true
is_set unset = false

abbrev is_polled : SourceType → Bool
is_polled flowsample = false
is_polled inter_poll_separation = false
is_polled ifgeneric = true
is_polled phyhost = true
is_polled vhost = true
is_polled flowstat = true

-- A source as the add functions make it
abbrev pub IsMade : ℕ × Source → Type 0
IsMade (address, src) =
    ((i : Interrupt) × IsTap src i)
    ⊎ ((p : Poll) × (src.kind ≡ poll p) × (is_polled src.source_type ≡ true))

false≢true : false ≡ true → ⊥
false≢true d = cc

type_matches-type_fits :
    (f : TypeFilter) (t : SourceType) → is_set f ≡ true → type_matches f t ≡ ok (type_fits f t)
unfolding type_matches
type_matches-type_fits (one_type u) t e = refl
type_matches-type_fits all_types t e = refl
type_matches-type_fits unset t e = absurd (false≢true e)

pub matches-fits :
    (filter : TypeFilter) (srcname : List ℕ) (src : Source)
    → is_set filter ≡ true
    → matches filter srcname src ≡ ok (fits filter srcname src)
unfolding matches
matches-fits filter srcname src h =
    elim (Bool-cases (starts_with srcname (codes "all") || starts_with src.name srcname)) [
      | inl t ↦ rw t (type_matches-type_fits filter src.source_type h)
      | inr t ↦ rw t refl
    ]

-- A polling source is stopped without a change to the descriptors.
stop_polled :
    (cancel : ℕ → ℕ) (t : SourceType) (src : Source) (p : Poll) (r : Registry)
    → src.source_type ≡ t
    → is_polled t ≡ true
    → src.kind ≡ poll p
    → stop_source cancel src r ≡ ok (cancel p.thread, r)
unfolding stop_source
stop_polled cancel flowsample src p r ht polled hk = absurd (false≢true polled)
stop_polled cancel inter_poll_separation src p r ht polled hk = absurd (false≢true polled)
stop_polled cancel ifgeneric src p r ht polled hk = rw (ht, hk) refl
stop_polled cancel phyhost src p r ht polled hk = rw (ht, hk) refl
stop_polled cancel vhost src p r ht polled hk = rw (ht, hk) refl
stop_polled cancel flowstat src p r ht polled hk = rw (ht, hk) refl

stop_if-IsFdTable :
    (cancel : ℕ → ℕ) (hit : Bool) (address : ℕ) (src : Source) (r : Registry)
    → IsFdTable r
    → IsMade (address, src)
    → (r' : Registry) × (stop_if cancel hit src r ≡ ok r') × IsFdTable r'
unfolding stop_if
stop_if-IsFdTable cancel false address src r h made = (r, refl, h)
stop_if-IsFdTable cancel true address src r h (inl (i, tap)) =
    let (r', e, h', _, _) = stop_source-IsFdTable cancel src i r h tap in (r', rw e refl, h')
stop_if-IsFdTable cancel true address src r h (inr (p, hk, polled)) =
    (r, rw (stop_polled cancel src.source_type src p r refl polled hk) refl, h)

remove_each-left :
    (cancel : ℕ → ℕ) (filter : TypeFilter) (srcname : List ℕ) (xs : List (ℕ × Source))
    (r : Registry)
    → is_set filter ≡ true
    → IsFdTable r
    → All IsMade xs
    → (r' : Registry) × (remove_each cancel filter srcname xs r ≡ ok (left filter srcname xs, r'))
      × IsFdTable r'
unfolding remove_each
remove_each-left cancel filter srcname [] r set h made = (r, refl, h)
remove_each-left cancel filter srcname ((address, src) ∷ xs) r set h (m, made) =
    let (r1, e1, h1) = stop_if-IsFdTable cancel (fits filter srcname src) address src r h m in
    let (r2, e2, h2) = remove_each-left cancel filter srcname xs r1 set h1 made in
    (r2, rw (matches-fits filter srcname src set, e1, e2) refl, h2)

-- For a name and a type without tabs, the type being known or "all", and sources as the add
-- functions make them, sflow_remove_source succeeds: the sources left, in their order, are those
-- of another type and, unless the given name begins with "all", those whose name does not begin
-- with it; the watched descriptors still agree with the sources.
pub remove_source-left :
    (cancel : ℕ → ℕ) (srcname typestr : List ℕ) (r : Registry)
    → NoTab srcname
    → NoTab typestr
    → is_set (filter_of (without_blanks typestr) (type_of (without_blanks typestr))) ≡ true
    → IsFdTable r
    → All IsMade r.all_sources
    → (r' : Registry) × (remove_source cancel srcname typestr r ≡ ok r')
      × (r'.all_sources
          ≡ left
              (filter_of (without_blanks typestr) (type_of (without_blanks typestr)))
              (without_blanks srcname)
              r.all_sources)
      × IsFdTable r'
unfolding remove_source
remove_source-left cancel srcname typestr r tabs tabs' set h made =
    let filter = filter_of (without_blanks typestr) (type_of (without_blanks typestr)) in
    let (r1, e, h1) =
      remove_each-left cancel filter (without_blanks srcname) r.all_sources r set h made in
    (
      record r1 { all_sources = left filter (without_blanks srcname) r.all_sources },
      rw (remove_space_lem srcname tabs, remove_space_lem typestr tabs', e) refl,
      refl,
      record { array = h1.array; watched = h1.watched; bound = h1.bound },
    )

-- For a name and a type without tabs, the type being neither known nor "all", and a first source
-- whose name begins with the given one, sflow_remove_source compares a type that was never
-- written.
pub remove_source_unknown_type :
    (cancel : ℕ → ℕ) (srcname typestr : List ℕ) (r : Registry) (address : ℕ) (src : Source)
    (rest : List (ℕ × Source))
    → NoTab srcname
    → NoTab typestr
    → filter_of (without_blanks typestr) (type_of (without_blanks typestr)) ≡ unset
    → r.all_sources ≡ (address, src) ∷ rest
    → starts_with src.name (without_blanks srcname) ≡ true
    → remove_source cancel srcname typestr r ≡ fault uninitialised
unfolding remove_source remove_each matches type_matches
remove_source_unknown_type cancel srcname typestr r address src rest tabs tabs' unknown first name =
    rw (remove_space_lem srcname tabs, remove_space_lem typestr tabs', unknown, first)
      (elim (Bool-cases (starts_with (without_blanks srcname) (codes "all"))) [
        | inl t ↦ rw t refl
        | inr t ↦ rw (t, name) refl
      ])
