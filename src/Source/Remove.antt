-- ===== src/Source/Remove.antt =====
-- sflow_remove_source of sflow/sflow_source.c. `cancel` is pthread_cancel, of which the loop
-- ignores the result.
pub mod Laws
use sflow.Common.{
  ℕ, ◌≡◌, refl, ap, ◌∙◌, Bool, true, false, ◌||◌, ◌&&◌, Bool-cases, ◌⊎◌, inl, inr, List, [], ◌∷◌,
  if◌then◌else◌, ◌==◌, Option, none, some, Outcome, ok, fault, ◌>>=◌, uninitialised,
}
use sflow.Common.Text.{codes}
use sflow.Protocol.Sequence.{All}
use sflow.Source.Text.{remove_space, starts_with}
use sflow.Source.Text.Laws.{NoTab, without_blanks, remove_space_lem}
use sflow.Source.Types.{
  Source, SourceType, flowsample, inter_poll_separation, ifgeneric, phyhost, vhost, flowstat,
  type_number, Poll, poll, Interrupt, as_poll,
}
use sflow.Source.Registry.{Registry, stop_source}
use sflow.Source.Registry.Laws.{IsFdTable, IsTap, stop_source-IsFdTable}

-- The ladder of `strncmp` that makes a number of a type's name
unfoldable pub type_of : List ℕ → Option SourceType
type_of typestr =
    if starts_with typestr (codes "flow_sample")
    then some flowsample
    else if starts_with typestr (codes "if_generic")
    then some ifgeneric
    else if starts_with typestr (codes "flow_stat")
    then some flowstat
    else if starts_with typestr (codes "host_phys")
    then some phyhost
    else if starts_with typestr (codes "host_virt")
    then some vhost
    else none

-- Which types are meant: one, all of them, or the variable that was never written
pub data TypeFilter : Type 0 where
  one_type : SourceType → TypeFilter
  all_types : TypeFilter
  unset : TypeFilter

unfoldable pub filter_of : List ℕ → Option SourceType → TypeFilter
filter_of typestr (some t) = one_type t
filter_of typestr none = if starts_with typestr (codes "all") then all_types else unset

type_matches : TypeFilter → SourceType → Outcome Bool
type_matches (one_type t) u = ok (type_number u == type_number t)
type_matches all_types u = ok true
type_matches unset u = fault uninitialised

-- (name_all || strncmp(...) == 0) && (type_all || ss_type == src_to_rm_type)
unfoldable pub matches : TypeFilter → List ℕ → Source → Outcome Bool
unfolding type_matches
matches filter srcname src =
    if starts_with srcname (codes "all") || starts_with src.name srcname
    then type_matches filter src.source_type
    else ok false

pub stop_if : (ℕ → ℕ) → Bool → Source → Registry → Outcome Registry
stop_if cancel false src r = ok r
stop_if cancel true src r = do (err, r') ← stop_source cancel src r; ok r'

-- The loop, with the sources that stay in the list
unfoldable pub remove_each :
    (ℕ → ℕ)
    → TypeFilter
    → List ℕ
    → List (ℕ × Source)
    → Registry
    → Outcome (List (ℕ × Source) × Registry)
remove_each cancel filter srcname [] r = ok ([], r)
remove_each cancel filter srcname ((address, src) ∷ rest) r = do
  hit ← matches filter srcname src
  r' ← stop_if cancel hit src r
  (kept, r'') ← remove_each cancel filter srcname rest r'
  ok (if hit then kept else (address, src) ∷ kept, r'')

unfoldable pub remove_source : (ℕ → ℕ) → List ℕ → List ℕ → Registry → Outcome Registry
remove_source cancel srcname typestr r = do
  name ← remove_space srcname
  typ ← remove_space typestr
  (kept, r') ← remove_each cancel (filter_of typ (type_of typ)) name r.all_sources r
  ok (record r' { all_sources = kept })
