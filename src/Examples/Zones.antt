-- ===== src/Examples/Zones.antt =====
-- The samplers of a zone at a concrete system, and the zones that leave it.
use sflow.Common.{ℕ, ◌≡◌, refl, [], ◌∷◌, arith, some, none, ok, fault, out_of_bounds, bad_cast}
use sflow.Common.Text.{codes}
use sflow.Memory.Endian.{little}
use sflow.Util.Itoa.{itoa, digits}
use sflow.Protocol.Counter.{Counter}
use sflow.Protocol.CounterRecord.{CounterRecord, counter_record_pack, counter_record_flat}
use sflow.Protocol.CounterSample.Pack.{counted}
use sflow.Protocol.Sample.{Sample}
use sflow.Protocol.Sample.Bytes.{IsSample, sample_data_bytes}
use sflow.Source.Types.{Source, vhost, poll, hostv_data}
use sflow.Leaf.Records.Laws.{records_wire}
use sflow.Leaf.Hostv.{get_sample_hostv}
use sflow.Leaf.Hostv.Zones.{
  Zone, Moment, opened, ZoneCache, fetch, list_zones, update_zone_stat, find_zone, zones_of,
  stat_of, get_zone_stat, cpu, ram_rss,
}
use sflow.Leaf.Hostv.Zones.Laws.{first_match, Holds, Told, get_zone_stat_lem, get_zone_stat_shrunk}
use sflow.Leaf.Hostv.Packs.{ZoneAttributes, ZoneSystem, virt_cpu_pack, virt_memory_pack}
use sflow.Leaf.Hostv.Gone.{virt_packs-gone}
use sflow.Leaf.Hostv.Laws.{ZoneAnswers, zone_structures, get_sample_hostv-IsSample}
use sflow.Examples.Data.{memory, memory-size}
use sflow.Examples.Hosts.{
  net0, host, speeds, link_totals, host_kernel-Counts, host_kernel-TellsCpus, host_kernel-HasSpeeds,
}

abbrev web : Zone
web = record { name = codes "web"; rss = 4096; pct = 2500 }

abbrev db : Zone
db = record { name = codes "db"; rss = 8192; pct = 1000 }

abbrev both : ZoneCache
both = record { zone_list = some (some web ∷ some db ∷ []); zone_num = 2; stamp = 100 }

both-Holds : Holds both (web ∷ db ∷ []) 100
both-Holds = record { zone_list = refl; zone_num = refl; stamp = refl }

-- Four seconds later both zones are still there, or only one.
abbrev still_both : Moment
still_both = record { now = 104; zs = opened (some (web ∷ db ∷ [])) }

abbrev only_db : Moment
only_db = record { now = 104; zs = opened (some (db ∷ [])) }

abbrev running : ZoneAttributes
running = record { status = some 4; vcpus = some (codes "2"); phys_mcap = some 0 }

abbrev zones : ZoneSystem
zones = record {
  sys = host;
  attributes = λ zone_id. running;
  zone_links = λ zone_id. some (net0 ∷ [], 0);
  zone_count = 3;
  cpu_moment = still_both;
  cpu_again = still_both;
  memory_moment = still_both;
  memory_again = still_both;
}

abbrev gone_zones : ZoneSystem
gone_zones = record zones {
  attributes = λ zone_id. record { status = none; vcpus = none; phys_mcap = none };
}

abbrev web_source : Source
web_source = record {
  name = codes "web";
  source_type = vhost;
  kind = poll (record { thread = 2; interval = 20 });
  count = 1;
  id_type = 3;
  id = 5;
  ent = 0;
  fmt = 2;
  specific = hostv_data 5;
}

abbrev later : ZoneCache
later = record both { stamp = 104 }

web-ZoneAnswers : ZoneAnswers zones web_source both later later 5 2 speeds link_totals
unfolding get_zone_stat update_zone_stat fetch list_zones find_zone zones_of stat_of itoa digits
web-ZoneAnswers = record {
  digits = codes "5";
  state = 4;
  vcpus = codes "2";
  cap = 0;
  pct = 2500;
  rss = some 4096;
  is_zone = refl;
  number = refl;
  short = omega arith;
  cpus = host_kernel-TellsCpus;
  has_speeds = host_kernel-HasSpeeds;
  has_state = refl;
  has_vcpus = refl;
  has_cap = refl;
  cpu_stat = refl;
  rss_stat = refl;
  counts = (host_kernel-Counts net0 refl, tt);
}

get_zone_stat_lem_example :
    Told both
      (web ∷ db ∷ [])
      (web ∷ db ∷ [])
      100
      still_both
      still_both
      (codes "db")
      cpu
      both-Holds
      (web ∷ db ∷ [])
      104
      (web ∷ db ∷ [])
get_zone_stat_lem_example =
    get_zone_stat_lem both (web ∷ db ∷ []) (web ∷ db ∷ []) 100 still_both still_both (codes "db")
      cpu both-Holds (web ∷ db ∷ []) refl refl (omega arith) (omega arith)

no_web : first_match (codes "web") (db ∷ []) ≡ none
unfolding first_match
no_web = refl

get_zone_stat_shrunk_example :
    get_zone_stat only_db only_db (codes "web") ram_rss both ≡ fault out_of_bounds
get_zone_stat_shrunk_example =
    get_zone_stat_shrunk both (web ∷ db ∷ []) (db ∷ []) 100 only_db only_db (codes "web") ram_rss
      both-Holds refl (omega arith) (omega arith) no_web

abbrev Faults : ℕ → Counter → Type 0
Faults fmt d =
    (cr : CounterRecord) × (counter_record_pack little d 0 fmt ≡ ok cr)
    × (counter_record_flat little 100 cr (memory 0) ≡ fault bad_cast)

virt_packs-gone_example :
    (d : Counter) × (virt_cpu_pack little gone_zones (codes "web") 5 both ≡ ok (d, both))
    × (virt_memory_pack little gone_zones (codes "web") 5 both ≡ ok (d, both))
    × Faults 2101 d
    × Faults 2102 d
virt_packs-gone_example =
    virt_packs-gone little gone_zones (codes "web") 5 both 100 (memory 0) refl refl
      (omega (arith, memory-size 0))

get_sample_hostv-IsSample_example :
    (sp : Sample) × (get_sample_hostv little zones web_source both
      ≡ ok (sp, counted web_source, later))
    × IsSample little memory sp
    × (sample_data_bytes little memory sp.content
        ≡ records_wire little web_source (
            zone_structures little zones web_source both later later 5 2 speeds link_totals
              web-ZoneAnswers))
get_sample_hostv-IsSample_example =
    get_sample_hostv-IsSample little zones web_source both later later 5 2 speeds link_totals
      web-ZoneAnswers memory
