-- ===== src/Source/Add.antt =====
-- Adding a source, the pipeline of sflow/sflow_source.c from the type's name to the registry.
-- The links, the zones, the sockets and the threads are the system's: `World`.
pub mod Laws
use sflow.Common.{
  ℕ, ◌+◌, ◌-◌, ◌*◌, ◌%◌, ◌^◌, Bool, true, false, ◌&&◌, ◌||◌, List, [], ◌∷◌, length, ltb, leb, ◌==◌,
  if◌then◌else◌, drop, Option, none, some, Outcome, ok, fault, ◌>>=◌, out_of_bounds,
}
use sflow.Common.Text.{codes}
use sflow.Source.Text.{find_attribute}
use sflow.Source.Types.{
  Source, SourceType, flowsample, inter_poll_separation, ifgeneric, phyhost, vhost, flowstat, Kind,
  poll, interrupt, Specific, flowsample_data, ifgeneric_data, hostv_data, no_data,
}
use sflow.Source.Registry.{Registry, Spawned, add_source_type}

-- sflow_get_if_link_id, fd_provider_flowsample for a link and a rate, and zone_getattr; `none` is
-- -1. `spawned` is what making a thread gives, `address` what calloc gives for the source.
pub record World : Type 0 where
  pub link_id : List ℕ → Option ℕ
  pub fd_provider : ℕ → ℕ → Option ℕ
  pub zone_name : ℕ → Option (List ℕ)
  pub spawned : Spawned
  pub address : ℕ

-- The part of sflowd_door_asrc_t that is used behind the type
pub record AddRequest : Type 0 where
  pub srcname : List ℕ
  pub propstr : List ℕ

-- SF_NAME_LEN, DFT_RATE_FS, DFT_INTERVAL_CT
abbrev pub sf_name_len : ℕ
sf_name_len = 64

abbrev pub dft_rate : ℕ
dft_rate = 200

abbrev pub dft_interval : ℕ
dft_interval = 10

-- The C library's `atoi` on a string that does not start with a blank; an `int` is its 32 bits.
abbrev pub digits_from : ℕ → List ℕ → ℕ
digits_from n [] = n
digits_from n (c ∷ s) =
    let more = digits_from (n * 10 + (c - 48)) s in if leb 48 c && leb c 57 then more else n

abbrev pub atoi : List ℕ → ℕ
atoi [] = 0
atoi (c ∷ s) =
    if c == 45
    then (2 ^ 32 - digits_from 0 s % 2 ^ 32) % 2 ^ 32
    else if c == 43
    then digits_from 0 s % 2 ^ 32
    else digits_from 0 (c ∷ s) % 2 ^ 32

abbrev pub number_or : ℕ → List ℕ → ℕ
number_or default [] = default
number_or default (c ∷ s) = atoi (c ∷ s)

-- strncpy of the name and the 0 that calloc left behind it
unfoldable pub copy_name : List ℕ → Outcome (List ℕ)
copy_name name = if ltb (length name) sf_name_len then ok name else fault out_of_bounds

abbrev pub polling : ℕ → Kind
polling interval = poll (record { thread = 0; interval = interval })

abbrev pub source_of : List ℕ → SourceType → Kind → ℕ → ℕ → ℕ → Specific → Source
source_of name t kind id_type id fmt specific = record {
  name = name;
  source_type = t;
  kind = kind;
  count = 0;
  id_type = id_type;
  id = id;
  ent = 0;
  fmt = fmt;
  specific = specific;
}

-- The error number or `none` for -1, the request with what was taken out of its properties, and
-- the registry
abbrev pub Added : Type 0
Added = Outcome (Option ℕ × AddRequest × Registry)

module _ (world : World) (req : AddRequest) (r : Registry) where
  failed : Added
  failed = ok (none, req, r)

  finish : Source → List ℕ → Added
  finish src propstr = do
    (err, r') ← add_source_type world.address world.spawned src r
    ok (some err, record req { propstr = propstr }, r')

  add_polling : List ℕ → SourceType → ℕ → ℕ → Specific → Added
  unfolding finish
  add_polling name t id_type id specific = do
    (prop, propstr) ← find_attribute req.propstr (codes "interval=")
    finish (source_of name t (polling (number_or dft_interval prop)) id_type id 2 specific) propstr

  -- Without a socket the properties have lost the rate all the same.
  open_tap : List ℕ → ℕ → ℕ → List ℕ → Option ℕ → Added
  unfolding finish
  open_tap name id rate propstr none = ok (none, record req { propstr = propstr }, r)
  open_tap name id rate propstr (some fd) =
      finish
        (source_of name flowsample (interrupt (record { fd = fd; rate = rate })) 0 id 1
          (flowsample_data (record { datalink = id; pool = 0; drops = 0 })))
        propstr

  add_tap : List ℕ → ℕ → Added
  unfolding open_tap
  add_tap name id = do
    (prop, propstr) ← find_attribute req.propstr (codes "rate=")
    open_tap name id (number_or dft_rate prop) propstr
        (world.fd_provider id (number_or dft_rate prop))

  with_link : Option ℕ → (ℕ → Added) → Added
  unfolding failed
  with_link none k = failed
  with_link (some id) k = k id

  with_zone : ℕ → Option (List ℕ) → Added
  unfolding failed add_polling
  with_zone zone none = failed
  with_zone zone (some name) = add_polling name vhost 3 zone (hostv_data zone)

  -- The `switch` of sflow_make_add_one_source_type
  make_by_type : SourceType → List ℕ → Added
  unfolding failed with_link with_zone add_tap add_polling
  make_by_type flowsample name = with_link (world.link_id name) (λ id. add_tap name id)
  make_by_type inter_poll_separation name = failed
  make_by_type ifgeneric name =
      with_link (world.link_id name) (λ id. add_polling name ifgeneric 0 id (ifgeneric_data id))
  make_by_type phyhost name = add_polling name phyhost 2 0 no_data
  make_by_type vhost name = with_zone (atoi req.srcname) (world.zone_name (atoi req.srcname))
  make_by_type flowstat name =
      with_link (world.link_id name) (λ id. add_polling name flowstat 0 id no_data)

  unfoldable pub make_add_one_source_type : SourceType → Added
  unfolding make_by_type
  make_add_one_source_type t = do name ← copy_name req.srcname; make_by_type t name
