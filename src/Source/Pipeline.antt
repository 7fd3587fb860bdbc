-- ===== src/Source/Pipeline.antt =====
-- The first two stages of adding a source, sflow_add_source and sflow_make_add_source_type of
-- sflow/sflow_source.c. `zones` is what zone_list gives once its array is large enough, and
-- `world` what the system gives for each of them.
use sflow.Common.{
  ℕ, ◌≡◌, refl, false, List, [], ◌∷◌, drop, if◌then◌else◌, Option, none, some, ok, fault, ◌>>=◌,
  uninitialised,
}
use sflow.Common.Text.{codes}
use sflow.Util.Itoa.{itoa}
use sflow.Source.Text.{remove_space, starts_with}
use sflow.Source.Text.Laws.{NoTab, without_blanks, remove_space_lem}
use sflow.Source.Types.{
  SourceType, flowsample, inter_poll_separation, ifgeneric, phyhost, vhost, flowstat,
}
use sflow.Source.Registry.{Registry}
use sflow.Source.Remove.{type_of}
use sflow.Source.Add.{World, AddRequest, Added, make_add_one_source_type}

-- for (i = 1; i < zone_cnt_now; i++), on the zones that are left and the status so far
pub add_zones : (ℕ → World) → List ℕ → Option ℕ → AddRequest → Registry → Added
add_zones world [] status req r = ok (status, req, r)
add_zones world (zone ∷ zones) status req r = do
  name ← itoa zone
  (status', req', r') ←
      make_add_one_source_type (world zone) (record req { srcname = name }) r vhost
  add_zones world zones status' req' r'

unfoldable pub make_add_source_type :
    (ℕ → World) → List ℕ → SourceType → AddRequest → Registry → Added
make_add_source_type world zones vhost req r =
    if starts_with req.srcname (codes "all")
    then add_zones world (drop 1 zones) (some 0) req r
    else ok (some 0, req, r)
make_add_source_type world zones flowsample req r =
    make_add_one_source_type (world 0) req r flowsample
make_add_source_type world zones inter_poll_separation req r =
    make_add_one_source_type (world 0) req r inter_poll_separation
make_add_source_type world zones ifgeneric req r =
    make_add_one_source_type (world 0) req r ifgeneric
make_add_source_type world zones phyhost req r = make_add_one_source_type (world 0) req r phyhost
make_add_source_type world zones flowstat req r = make_add_one_source_type (world 0) req r flowstat

-- For a type that is not known `err` is returned as it was declared.
dispatch : (ℕ → World) → List ℕ → Option SourceType → AddRequest → Registry → Added
dispatch world zones none req r = fault uninitialised
dispatch world zones (some t) req r = make_add_source_type world zones t req r

unfoldable pub add_source :
    (ℕ → World) → List ℕ → (srcname propstr typestr : List ℕ) → Registry → Added
unfolding dispatch
add_source world zones srcname propstr typestr r = do
  name ← remove_space srcname
  props ← remove_space propstr
  typ ← remove_space typestr
  dispatch world zones (type_of typ) (record { srcname = name; propstr = props }) r

module _ (world : ℕ → World) (zones srcname propstr typestr : List ℕ) (r : Registry)
    (tabs : NoTab srcname) (tabs' : NoTab propstr) (tabs'' : NoTab typestr) where
  -- For strings without tabs and a type that is not known, sflow_add_source returns a variable
  -- that was never written.
  pub add_source_unknown_type :
      type_of (without_blanks typestr) ≡ none
      → add_source world zones srcname propstr typestr r ≡ fault uninitialised
  unfolding add_source dispatch
  add_source_unknown_type unknown =
      rw
        (
          remove_space_lem srcname tabs,
          remove_space_lem propstr tabs',
          remove_space_lem typestr tabs'',
          unknown,
        )
        refl

  -- For strings without tabs, the type of a virtual host and a name that does not begin with
  -- "all", sflow_add_source returns 0 and adds nothing.
  pub add_source_one_zone :
      type_of (without_blanks typestr) ≡ some vhost
      → starts_with (without_blanks srcname) (codes "all") ≡ false
      → add_source world zones srcname propstr typestr r
        ≡ ok (
          some 0,
          record { srcname = without_blanks srcname; propstr = without_blanks propstr },
          r,
        )
  unfolding add_source dispatch make_add_source_type
  add_source_one_zone virtual named =
      rw
        (
          remove_space_lem srcname tabs,
          remove_space_lem propstr tabs',
          remove_space_lem typestr tabs'',
          virtual,
          named,
        )
        refl
