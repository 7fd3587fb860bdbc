-- ===== src/Leaf/Hostv/Zones/Laws.antt =====
-- The cache of the zones: what a statistic is looked up in, and what goes wrong when zones leave.
use sflow.Common.{
  ℕ, suc, ◌+◌, ◌-◌, ◌<◌, ◌≤◌, ◌≡◌, refl, sym, ap, ◌∙◌, true, false, List, [], ◌∷◌, ◌++◌, map,
  length, replicate, append-nil, Option, none, some, Outcome, ok, fault, out_of_bounds, ltb,
  Bool-cases, inl, inr, Option-cases, ◌⊎◌, ◌%◌, ◌^◌, drop, zero, arith, if◌then◌else◌, max, ltb→lt,
}
use sflow.Common.Int.{pos}
use sflow.Source.Text.{starts_with}
use sflow.Leaf.Hostv.Zones.{
  Zone, Moment, opened, ZoneCache, some_of, list_zones, fetch, update_zone_stat, find_zone,
  ZsResource, ram_rss, cpu, used, is_there, zones_of, stat_of, get_zone_stat,
}

-- The first zone whose name the wanted one begins with
unfoldable pub first_match : List ℕ → List Zone → Option Zone
first_match zname [] = none
first_match zname (z ∷ zs) = elim (starts_with zname z.name) [
  | true ↦ some z
  | false ↦ first_match zname zs
]

abbrev or_rest : Option Zone → Outcome (Option Zone) → Outcome (Option Zone)
or_rest none r = r
or_rest (some z) r = ok (some z)

find_zone-append :
    (zname : List ℕ) (zs : List Zone) (rest : List (Option Zone))
    → find_zone zname (map some_of zs ++ rest)
      ≡ or_rest (first_match zname zs) (find_zone zname rest)
unfolding find_zone first_match
find_zone-append zname [] rest = refl
find_zone-append zname (x ∷ zs) rest = elim (Bool-cases (starts_with zname x.name)) [
  | inl t ↦ rw (t, find_zone, first_match) refl
  | inr t ↦ rw (t, find_zone, first_match) (find_zone-append zname zs rest)
]

find_zone-map :
    (zname : List ℕ) (zs : List Zone) → find_zone zname (map some_of zs) ≡ ok (first_match zname zs)
unfolding find_zone
find_zone-map zname zs =
    ap (find_zone zname) (sym (append-nil (map some_of zs)))
    ∙ find_zone-append zname zs []
    ∙ or_none (first_match zname zs)
  where
    or_none : (o : Option Zone) → or_rest o (ok none) ≡ ok o
    or_none none = refl
    or_none (some z) = refl

-- The cache holds these zones, read at `t`.
pub record Holds (cache : ZoneCache) (zones : List Zone) (t : ℕ) : Type 0 where
  pub zone_list : cache.zone_list ≡ some (map some_of zones)
  pub zone_num : cache.zone_num ≡ length zones
  pub stamp : cache.stamp ≡ t

zones_of-Holds :
    (cache : ZoneCache) (zones : List Zone) (t : ℕ)
    → Holds cache zones t
    → zones_of cache ≡ map some_of zones
unfolding zones_of
zones_of-Holds cache zones t h = rw (h.zone_list, zones_of) refl

-- The zones that a call at `m` sees, and when they were read
abbrev pub seen : List Zone → ℕ → Moment → List Zone → List Zone
seen zones t m zones' = if ltb m.now (t + 3) then zones else zones'

abbrev pub seen_at : ℕ → Moment → ℕ
seen_at t m = if ltb m.now (t + 3) then t else m.now

length-map_some : (zs : List Zone) → length (map some_of zs) ≡ length zs
length-map_some [] = refl
length-map_some (z ∷ zs) = ap suc (length-map_some zs)

-- The pointers behind those of a list that is read into an array with room for `n` more
abbrev left_over : ℕ → List (Option Zone)
left_over n = replicate n none

-- What reading the zones makes of the cache: the array keeps its size where zones have left.
abbrev read_cache : List Zone → List Zone → Moment → ZoneCache
read_cache zones zones' m = record {
  zone_list = some (map some_of zones' ++ left_over (length zones - length zones'));
  zone_num = max (length zones) (length zones');
  stamp = m.now;
}

drop-replicate : {A : Type 0} (n k : ℕ) (x : A) → drop n (replicate k x) ≡ replicate (k - n) x
drop-replicate zero k x = let all : k - 0 ≡ k = omega arith in rw all refl
drop-replicate (suc n) zero x = let nothing : 0 - suc n ≡ 0 = omega arith in rw nothing refl
drop-replicate (suc n) (suc k) x =
    let less : suc k - suc n ≡ k - n = omega arith in rw less (drop-replicate n k x)

fetch-read_cache :
    (cache : ZoneCache) (zones zones' : List Zone) (t : ℕ) (m : Moment)
    → Holds cache zones t
    → m.zs ≡ opened (some zones')
    → fetch m cache ≡ (pos 0, read_cache zones zones' m)
unfolding fetch list_zones
fetch-read_cache cache zones zones' t m h e =
    elim (Bool-cases (ltb (length zones) (length zones'))) [
      | inl lt ↦
          let less = ltb→lt (length zones) (length zones') lt in
          let none_left : length zones - length zones' ≡ 0 = omega arith in
          let largest : max (length zones) (length zones') ≡ length zones' = omega arith in
          rw (e, h.zone_num, lt, none_left, largest, append-nil (map some_of zones')) refl
      | inr ge ↦
          let largest : max (length zones) (length zones') ≡ length zones = ground (arith, ge) in
          let behind : drop (length zones') (replicate (length (map some_of zones)) none)
              ≡ left_over (length zones - length zones') =
            drop-replicate (length zones') (length (map some_of zones)) none
            ∙ ap (λ (k : ℕ). left_over (k - length zones')) (length-map_some zones) in
          rw (e, h.zone_num, ge, h.zone_list, largest, behind) refl
    ]

read_cache-Holds :
    (zones zones' : List Zone) (m : Moment)
    → length zones ≤ length zones'
    → Holds (read_cache zones zones' m) zones' m.now
read_cache-Holds zones zones' m more =
    let none_left : length zones - length zones' ≡ 0 = omega arith in
    record {
      zone_list = rw (none_left, append-nil (map some_of zones')) refl;
      zone_num = omega arith;
      stamp = refl;
    }

-- A forced update reads the zones whatever the age of the cache.
update_forced : (cache : ZoneCache) (m : Moment) → update_zone_stat true m cache ≡ fetch m cache
unfolding update_zone_stat
update_forced cache m = elim (Bool-cases (is_there cache)) [ inl e ↦ rw e refl | inr e ↦ rw e refl ]

-- The share of the processors has 32 bits, the memory 64.
abbrev pub statistic : ZsResource → Zone → ℕ
statistic ram_rss z = z.rss % 2 ^ 64
statistic cpu z = z.pct % 2 ^ 32

used-statistic : (stat : ZsResource) (z : Zone) → used stat z ≡ statistic stat z
used-statistic ram_rss z = refl
used-statistic cpu z = refl

update_hit :
    (cache : ZoneCache) (zones : List Zone) (t : ℕ) (m : Moment)
    → Holds cache zones t
    → ltb m.now (t + 3) ≡ true
    → update_zone_stat false m cache ≡ (pos 0, cache)
unfolding update_zone_stat
update_hit cache zones t m h fresh = rw (h.zone_list, h.stamp, fresh) refl

update_miss :
    (cache : ZoneCache) (zones : List Zone) (t : ℕ) (m : Moment)
    → Holds cache zones t
    → ltb m.now (t + 3) ≡ false
    → update_zone_stat false m cache ≡ fetch m cache
unfolding update_zone_stat
update_miss cache zones t m h old = rw (h.zone_list, h.stamp, old) refl

module _ (cache : ZoneCache) (zones zones' : List Zone) (t : ℕ) (m m' : Moment) (zname : List ℕ)
    (stat : ZsResource) (h : Holds cache zones t) where
  fetched :
      m.zs ≡ opened (some zones')
      → ltb m.now (t + 3) ≡ false
      → update_zone_stat false m cache ≡ (pos 0, read_cache zones zones' m)
  fetched e old = update_miss cache zones t m h old ∙ fetch-read_cache cache zones zones' t m h e

  updated :
      m.zs ≡ opened (some zones')
      → length zones ≤ length zones'
      → (cache' : ZoneCache) × (update_zone_stat false m cache ≡ (pos 0, cache'))
        × Holds cache' (seen zones t m zones') (seen_at t m)
  updated e more = elim (Bool-cases (ltb m.now (t + 3))) [
    | inl fresh ↦ (cache, update_hit cache zones t m h fresh, rw fresh h)
    | inr old ↦
        (read_cache zones zones' m, fetched e old, rw old (read_cache-Holds zones zones' m more))
  ]

  -- What a call returns and leaves in the cache: the statistic of the first zone that matches and
  -- the zones searched, or -1 and the zones `again` read at the second moment
  abbrev pub Told : List Zone → ℕ → List Zone → Type 0
  Told zs at again =
      ((z : Zone) × (cache' : ZoneCache) × (first_match zname zs ≡ some z)
        × (get_zone_stat m m' zname stat cache ≡ ok (some (statistic stat z), cache'))
        × Holds cache' zs at)
      ⊎ ((cache' : ZoneCache) × (first_match zname zs ≡ none)
          × (get_zone_stat m m' zname stat cache ≡ ok (none, cache'))
          × Holds cache' again m'.now)

  -- For a cache that holds zones read at t, and a call at which as many zones or more are there,
  -- and no fewer than it searched at the moment of a second reading, sflow_get_zone_stat searches
  -- the cached zones if they are less than three seconds old, or else those that it reads now,
  -- which the cache then holds: it gives the resident memory in 64 bits or the share of the
  -- processors in 32 bits of the first zone whose name the wanted one begins with; without such a
  -- zone its result is -1, and the zones are read once more, however old they are, and are then in
  -- the cache.
  pub get_zone_stat_lem :
      (again : List Zone)
      → m.zs ≡ opened (some zones')
      → m'.zs ≡ opened (some again)
      → length zones ≤ length zones'
      → length (seen zones t m zones') ≤ length again
      → Told (seen zones t m zones') (seen_at t m) again
  unfolding get_zone_stat stat_of
  get_zone_stat_lem again e e' more still =
      let (cache', e_c, h') = updated e more in
      let zs = seen zones t m zones' in
      let searched = zones_of-Holds cache' zs (seen_at t m) h' in
      elim (Option-cases (first_match zname zs)) [
        | inl none_there ↦ inr (
          read_cache zs again m',
          none_there,
          rw
              (
                e_c,
                searched,
                find_zone-map zname zs,
                none_there,
                update_forced cache' m',
                fetch-read_cache cache' zs again (seen_at t m) m' h' e',
              )
              refl,
          read_cache-Holds zs again m' still,
        )
        | inr (z, there) ↦ inl (
          z,
          cache',
          there,
          rw (e_c, searched, find_zone-map zname zs, there, used-statistic stat z) refl,
          h',
        )
      ]

  -- For a cache that holds zones read three seconds ago or earlier, if fewer zones are left now
  -- and none of them is the wanted one, the search of sflow_get_zone_stat reads a pointer into
  -- freed memory.
  pub get_zone_stat_shrunk :
      m.zs ≡ opened (some zones')
      → length zones' < length zones
      → t + 3 ≤ m.now
      → first_match zname zones' ≡ none
      → get_zone_stat m m' zname stat cache ≡ fault out_of_bounds
  unfolding get_zone_stat find_zone zones_of
  get_zone_stat_shrunk e fewer late gone =
      let old : ltb m.now (t + 3) ≡ false = ground (arith, late) in
      let left : length zones - length zones' ≡ suc (length zones - length zones' - 1) =
        omega arith in
      rw (fetched e old, left, find_zone-append zname zones' _, gone) refl
