-- ===== src/Leaf/Hostv/Zones.antt =====
-- The zone statistics of sflow/sflow_protocol_leaf_hostv.c: sflow_update_zone_stat with its cache
-- of three seconds, and sflow_get_zone_stat. A call of libzonestat is answered by a `Moment`.
pub mod Laws
use sflow.Common.{
  ℕ, ◌+◌, ◌-◌, ◌%◌, ◌^◌, Bool, true, false, not, ◌&&◌, List, [], ◌∷◌, ◌++◌, map, length, replicate,
  drop, Option, none, some, Outcome, ok, fault, ◌>>=◌, out_of_bounds, ltb, if◌then◌else◌,
}
use sflow.Common.Int.{ℤ, pos, negsuc}
use sflow.Source.Text.{starts_with}

-- zs_zone_t: its name, its resident memory in bytes, and its share of the processors
pub record Zone : Type 0 where
  pub name : List ℕ
  pub rss : ℕ
  pub pct : ℕ

pub data ZsErrno : Type 0 where
  eperm eintr esrch enotsup other_errno : ZsErrno

-- zs_open, and what zs_usage_read then reads, `none` where it fails
pub data ZsOpen : Type 0 where
  refused : ZsErrno → ZsOpen
  opened : Option (List Zone) → ZsOpen

pub record Moment : Type 0 where
  pub now : ℕ
  pub zs : ZsOpen

-- CACHE_OK
abbrev pub cache_ok : ℕ
cache_ok = 3

-- g_zone_list, NULL or an array of g_zone_num pointers, and time_stamp. A pointer is `none` once
-- the usage that it points into is freed.
pub record ZoneCache : Type 0 where
  pub zone_list : Option (List (Option Zone))
  pub zone_num : ℕ
  pub stamp : ℕ

abbrev pub some_of : Zone → Option Zone
some_of z = some z

abbrev pub dangling : List (Option Zone) → List (Option Zone)
dangling zs = replicate (length zs) none

-- zs_usage_free of the old usage
abbrev pub freed : ZoneCache → ZoneCache
freed cache = record cache {
  zone_list = elim cache.zone_list [ none ↦ none | some zs ↦ some (dangling zs) ];
}

-- The loop around zs_zone_list: where the array is too small it is made anew with the number that
-- there are; where it is larger, its other pointers and g_zone_num stay as they are.
unfoldable pub list_zones : List Zone → ZoneCache → ZoneCache
list_zones zones cache =
    if ltb cache.zone_num (length zones)
    then record cache { zone_list = some (map some_of zones); zone_num = length zones }
    else record cache {
      zone_list = elim cache.zone_list [
        | none ↦ none
        | some zs ↦ some (map some_of zones ++ drop (length zones) zs)
      ];
    }

refused_status : ZsErrno → ℤ
refused_status eperm = negsuc 0
refused_status eintr = negsuc 0
refused_status esrch = negsuc 0
refused_status enotsup = negsuc 0
refused_status other_errno = negsuc 1

-- From zs_open on
unfoldable pub fetch : Moment → ZoneCache → ℤ × ZoneCache
unfolding refused_status
fetch m cache = elim m.zs [
  | refused errno ↦ (refused_status errno, cache)
  | opened none ↦ (negsuc 2, freed cache)
  | opened (some zones) ↦ (pos 0, record (list_zones zones (freed cache)) { stamp = m.now })
]

abbrev pub is_there : ZoneCache → Bool
is_there cache = elim cache.zone_list [ none ↦ false | some zs ↦ true ]

-- difftime, cast to int, is below 3: also where the clock was set back
unfoldable pub update_zone_stat : Bool → Moment → ZoneCache → ℤ × ZoneCache
update_zone_stat force m cache =
    if is_there cache && not force && ltb m.now (cache.stamp + cache_ok)
    then (pos 0, cache)
    else fetch m cache

-- The loop over the list; reading through a pointer into freed memory is undefined. A zone matches
-- whose name the wanted one begins with.
unfoldable pub find_zone : List ℕ → List (Option Zone) → Outcome (Option Zone)
find_zone zname [] = ok none
find_zone zname (none ∷ zs) = fault out_of_bounds
find_zone zname (some z ∷ zs) = elim (starts_with zname z.name) [
  | true ↦ ok (some z)
  | false ↦ find_zone zname zs
]

pub data ZsResource : Type 0 where
  ram_rss cpu : ZsResource

abbrev pub used : ZsResource → Zone → ℕ
used ram_rss z = z.rss % 2 ^ 64
used cpu z = z.pct % 2 ^ 32

unfoldable pub zones_of : ZoneCache → List (Option Zone)
zones_of cache = elim cache.zone_list [ none ↦ [] | some zs ↦ zs ]

-- From the test of `z` on; the forced update is made at the moment `m'`.
unfoldable pub stat_of :
    Moment → ZsResource → ZoneCache → Option Zone → Outcome (Option ℕ × ZoneCache)
stat_of m' stat cache none = ok (none, (update_zone_stat true m' cache).1)
stat_of m' stat cache (some z) = ok (some (used stat z), cache)

-- sflow_get_zone_stat, with the moment of the call and that of the forced update; the result
-- `none` is -1, where nothing is stored.
unfoldable pub get_zone_stat :
    Moment → Moment → List ℕ → ZsResource → ZoneCache → Outcome (Option ℕ × ZoneCache)
get_zone_stat m m' zname stat cache = do
  let (status, cache') = update_zone_stat false m cache
  found ← find_zone zname (zones_of cache')
  stat_of m' stat cache' found
