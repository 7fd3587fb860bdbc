-- ===== src/Leaf/Hostv/Packs.antt =====
-- The structures of a zone: the pack functions of sflow/sflow_protocol_leaf_hostv.c.
use sflow.Common.{
  ℕ, ◌+◌, ◌-◌, ◌*◌, ◌/◌, ◌%◌, ◌^◌, List, [], ◌∷◌, ◌++◌, length, take, drop, Option, none, some,
  Outcome, ok, fault, ◌>>=◌, or_fault, uninitialised, out_of_bounds, leb, ◌==◌, if◌then◌else◌,
}
use sflow.Common.Int.{ℤ}
use sflow.Common.Text.{codes}
use sflow.Memory.Endian.{Endian, htonl}
use sflow.Memory.Layout.{char_array}
use sflow.Util.Hyper.{hton_h}
use sflow.Util.Itoa.{itoa}
use sflow.Util.Kstat.{link_stat_32, link_stat_64}
use sflow.Util.Machine.{mem_bytes}
use sflow.Protocol.Leaves.Host.{HostDescr, HostParent}
use sflow.Protocol.Leaves.Virtual.{VirtLeaf, VirtNetIo}
use sflow.Protocol.Counter.{Counter, virt_cpu, virt_memory, null}
use sflow.Leaf.System.{Link, Walk, System}
use sflow.Leaf.Hostphy.Links.{walk_links}
use sflow.Leaf.Hostphy.Cpu.{cpu_pack}
use sflow.Leaf.Hostphy.Memory.{memory_pack}
use sflow.Leaf.Hostphy.Descr.{descr_pack, parent_pack}
use sflow.Leaf.Hostv.Zones.{Moment, ZoneCache, get_zone_stat, ram_rss, cpu}

-- What zone_getattr tells of a zone, `none` where it fails with -1
pub record ZoneAttributes : Type 0 where
  pub status : Option ℕ
  pub vcpus : Option (List ℕ)
  pub phys_mcap : Option ℕ

pub record ZoneSystem : Type 0 where
  pub sys : System
  pub open sys use *
  pub attributes : ℕ → ZoneAttributes
  -- The walk of a zone's links
  pub zone_links : ℕ → Walk
  -- The number that zone_list stores, the global zone included
  pub zone_count : ℕ
  -- The moments of the calls of libzonestat, in their order
  pub cpu_moment : Moment
  pub cpu_again : Moment
  pub memory_moment : Moment
  pub memory_again : Moment

-- The characters `s` written into `buf` at `at`
abbrev pub overwrite : List ℕ → ℕ → List ℕ → List ℕ
overwrite buf at s = take at buf ++ (s ++ drop (at + length s) buf)

-- strncpy (h->hd_name, ss_name, strlen (ss_name)), into a `char [60]`
unfoldable pub zone_name : List ℕ → Outcome (List ℕ)
zone_name name = if leb (length name) 60 then ok name else fault out_of_bounds

-- itoa (zone_id, h->hd_uuid + strlen (ss_name)), which writes a 0 behind the digits, into a
-- `char [16]`
unfoldable pub zone_uuid : List ℕ → List ℕ → ℕ → Outcome (List ℕ)
zone_uuid uuid name zone_id = do
  digits ← itoa zone_id
  if leb (length name + length digits + 1) 16
      then ok (overwrite (char_array 16 uuid) (length name) (digits ++ 0 ∷ []))
      else fault out_of_bounds

-- sflow_cr_host_descr_pack_v. The array `tmp` that it fills is not used.
unfoldable pub descr_pack_v : Endian → ZoneSystem → List ℕ → ℕ → Outcome HostDescr
descr_pack_v e zs name zone_id = do
  let h = descr_pack e zs.sys
  hd_name ← zone_name name
  hd_uuid ← zone_uuid h.uuid name zone_id
  ok (record h { name = hd_name; uuid = hd_uuid })

-- sflow_cr_host_parent_pack_v
unfoldable pub parent_pack_v : Endian → HostParent
parent_pack_v e = record parent_pack { container_type = htonl e 2; container_index = htonl e 0 }

-- sflow_cr_virt_node_pack
unfoldable pub virt_node_pack : Endian → ZoneSystem → Outcome VirtLeaf
virt_node_pack e zs = do
  c ← cpu_pack e zs.sys
  m ← memory_pack e zs.sys
  ok (record {
    mhz = htonl e (htonl e c.cpu_speed / 1_000_000);
    cpus = htonl e (htonl e c.cpu_num);
    memory = m.total;
    memory_free = m.free;
    num_domains = htonl e ((zs.zone_count + (2 ^ 32 - 1)) % 2 ^ 32);
  })

-- buf_32 * buf_int/10000, in 32 bits
abbrev pub cpu_time : ℕ → ℕ → ℕ
cpu_time up pct = up * pct % 2 ^ 32 / 10_000

-- sflow_cr_virt_cpu_pack. The result of sflow_get_zone_stat is not looked at: where it is -1,
-- `buf_int` was never written. `vc_nrVirtCpu` stays 0.
unfoldable pub virt_cpu_pack :
    Endian → ZoneSystem → List ℕ → ℕ → ZoneCache → Outcome (Counter × ZoneCache)
virt_cpu_pack e zs name zone_id cache = elim (zs.attributes zone_id).status [
  | none ↦ ok (null, cache)
  | some state ↦ elim (zs.attributes zone_id).vcpus [
    | none ↦ ok (null, cache)
    | some vcpus ↦ do
      (pct, cache') ← get_zone_stat zs.cpu_moment zs.cpu_again name cpu cache
      buf_int ← or_fault pct uninitialised
      ok (
        virt_cpu (record {
          state = htonl e state;
          cpu_time = htonl e (cpu_time (zs.up_time % 2 ^ 32) buf_int);
          nr_virt_cpu = htonl e 0;
        }),
        cache',
      )
  ]
]

abbrev pub or_zero : Option ℕ → ℕ
or_zero none = 0
or_zero (some n) = n

-- sflow_cr_virt_memory_pack; the structure was cleared.
unfoldable pub virt_memory_pack :
    Endian → ZoneSystem → List ℕ → ℕ → ZoneCache → Outcome (Counter × ZoneCache)
virt_memory_pack e zs name zone_id cache = elim (zs.attributes zone_id).phys_mcap [
  | none ↦ ok (null, cache)
  | some cap ↦ do
    (rss, cache') ← get_zone_stat zs.memory_moment zs.memory_again name ram_rss cache
    ok (
      virt_memory (record {
        memory = hton_h e (or_zero rss);
        max_memory =
            hton_h e (if cap == 0 then mem_bytes zs.kernel zs.architecture else cap % 2 ^ 64);
      }),
      cache',
    )
]

-- calloc
abbrev pub no_zone_traffic : VirtNetIo
no_zone_traffic = record {
  rx_bytes = 0;
  rx_packets = 0;
  rx_errs = 0;
  rx_drop = 0;
  tx_bytes = 0;
  tx_packets = 0;
  tx_errs = 0;
  tx_drop = 0;
}

-- walk_one_zone_links
abbrev pub walk_one_zone_links :
    {A : Type 0} → ZoneSystem → ℕ → (Link → A → Outcome A) → A → Outcome (ℤ × A)
walk_one_zone_links zs zone_id cb a = walk_links (zs.zone_links zone_id) cb a

-- gather_zone_link_total
unfoldable pub gather_zone_link_total : ZoneSystem → Link → VirtNetIo → Outcome VirtNetIo
gather_zone_link_total zs di n = do
  rx_bytes ← link_stat_64 zs.kernel di.name (codes "rbytes64")
  tx_bytes ← link_stat_64 zs.kernel di.name (codes "obytes64")
  rx_errs ← link_stat_32 zs.kernel di.name (codes "ierrors")
  tx_errs ← link_stat_32 zs.kernel di.name (codes "oerrors")
  rx_packets ← link_stat_32 zs.kernel di.name (codes "ipackets")
  tx_packets ← link_stat_32 zs.kernel di.name (codes "opackets")
  ok (record n {
    rx_bytes = (n.rx_bytes + rx_bytes) % 2 ^ 64;
    tx_bytes = (n.tx_bytes + tx_bytes) % 2 ^ 64;
    rx_errs = (n.rx_errs + rx_errs) % 2 ^ 32;
    tx_errs = (n.tx_errs + tx_errs) % 2 ^ 32;
    rx_packets = (n.rx_packets + rx_packets) % 2 ^ 32;
    tx_packets = (n.tx_packets + tx_packets) % 2 ^ 32;
  })

-- sflow_cr_virt_net_io_pack; the drops are not converted, and 0.
unfoldable pub virt_net_io_pack : Endian → ZoneSystem → ℕ → Outcome VirtNetIo
virt_net_io_pack e zs zone_id = do
  (_, p) ← walk_one_zone_links zs zone_id (gather_zone_link_total zs) no_zone_traffic
  ok (record {
    rx_bytes = hton_h e p.rx_bytes;
    rx_packets = htonl e p.rx_packets;
    rx_errs = htonl e p.rx_errs;
    rx_drop = p.rx_drop;
    tx_bytes = hton_h e p.tx_bytes;
    tx_packets = htonl e p.tx_packets;
    tx_errs = htonl e p.tx_errs;
    tx_drop = p.tx_drop;
  })
