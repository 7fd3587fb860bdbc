-- ===== src/Source/Add/Laws.antt =====
-- A flow_sample source that is added is as the registry and the samples need it.
use sflow.Common.{ℕ, ◌<◌, ◌^◌, ◌≡◌, ◌≢◌, refl, List, [], ◌∷◌, ◌++◌, length, lt→ltb, some, ok}
use sflow.Common.Text.{codes}
use sflow.Source.Text.{find_attribute}
use sflow.Source.Types.{Source, flowsample, interrupt, flowsample_data}
use sflow.Source.Registry.{Registry}
use sflow.Source.Registry.Laws.{IsFdTable, add_source_type-IsFdTable}
use sflow.Leaf.Flowsample.Laws.{IsFlowsample}
use sflow.Source.Add.{
  World, AddRequest, copy_name, dft_rate, number_or, source_of, make_add_one_source_type,
}

-- For a name below 64 characters of a link that is known, a property string in which the rate is
-- looked up, a socket that can be opened on a descriptor below 2 ^ 30 and an address other than
-- NULL, on a registry that agrees, sflow_make_add_one_source_type adds a flow_sample source: the
-- registry still agrees, the source is the last one and one that get_sample_flowsample takes, and
-- its rate is the property's, or 200 without one.
pub make_add_flowsample-IsFdTable :
    (world : World) (req : AddRequest) (r : Registry) (id fd : ℕ) (prop propstr : List ℕ)
    → IsFdTable r
    → length req.srcname < 64
    → world.link_id req.srcname ≡ some id
    → find_attribute req.propstr (codes "rate=") ≡ ok (prop, propstr)
    → world.fd_provider id (number_or dft_rate prop) ≡ some fd
    → fd < 2 ^ 30
    → world.address ≢ 0
    → (r' : Registry) × (src : Source) × (make_add_one_source_type world req r flowsample
        ≡ ok (some 0, record req { propstr = propstr }, r'))
      × IsFdTable r'
      × (r'.all_sources ≡ r.all_sources ++ (world.address, src) ∷ [])
      × IsFlowsample src
          (record { fd = fd; rate = number_or dft_rate prop })
          (record { datalink = id; pool = 0; drops = 0 })
unfolding make_add_one_source_type copy_name
make_add_flowsample-IsFdTable world req r id fd prop propstr h short link found opened small there =
    let src =
      source_of req.srcname flowsample
        (interrupt (record { fd = fd; rate = number_or dft_rate prop })) 0 id 1
        (flowsample_data (record { datalink = id; pool = 0; drops = 0 })) in
    let (r', e, h', _, all) =
      add_source_type-IsFdTable world.address world.spawned src
        (record { fd = fd; rate = number_or dft_rate prop }) r h
        (record { source_type = refl; kind = refl; small = small }) there in
    (
      r',
      src,
      rw (lt→ltb (length req.srcname) 64 short, link, found, opened, e) refl,
      h',
      all,
      record { kind = refl; specific = refl; ent = refl; fmt = refl },
    )
