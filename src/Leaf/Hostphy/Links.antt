-- ===== src/Leaf/Hostphy/Links.antt =====
-- The walk over the links of sflow/sflow_protocol_leaf_hostphy.c and its two callbacks: the
-- adapters, and the totals of the links' counters.
pub mod Laws
pub mod Totals
use sflow.Common.{
  ℕ, ◌+◌, ◌*◌, ◌%◌, ◌^◌, List, [], ◌∷◌, ◌++◌, Option, none, some, Outcome, ok, ◌>>=◌, or_fault,
  uninitialised, ◌==◌, if◌then◌else◌,
}
use sflow.Common.Int.{ℤ, pos, negsuc}
use sflow.Common.Text.{codes}
use sflow.Memory.Endian.{Endian, htonl}
use sflow.Util.Hyper.{hton_h}
use sflow.Util.Kstat.{Kernel, link_stat_32, link_stat_64}
use sflow.Util.Mac.{mac_convert}
use sflow.Protocol.Leaves.Host.{HostNetIo}
use sflow.Protocol.Counter.{Adapter, HostAdapters}
use sflow.Leaf.System.{Link, Walk, System}

-- dladm_walk_datalinks: both callbacks return DLADM_WALK_CONTINUE.
unfoldable pub walk_datalinks : {A : Type 0} → (Link → A → Outcome A) → List Link → A → Outcome A
walk_datalinks cb [] a = ok a
walk_datalinks cb (di ∷ rest) a = do a' ← cb di a; walk_datalinks cb rest a'

-- sflow_walk_links, with its result
unfoldable pub walk_links : {A : Type 0} → Walk → (Link → A → Outcome A) → A → Outcome (ℤ × A)
walk_links none cb a = ok (negsuc 0, a)
walk_links (some (links, status)) cb a = do a' ← walk_datalinks cb links a; ok (pos status, a')

-- calloc
abbrev pub no_traffic : HostNetIo
no_traffic = record {
  bytes_in = 0;
  pkts_in = 0;
  errs_in = 0;
  drops_in = 0;
  bytes_out = 0;
  pkts_out = 0;
  errs_out = 0;
  drops_out = 0;
}

module _ (e : Endian) (sys : System) where
  -- sflow_gather_adapter; where the link has no such property, `buff` was never written.
  unfoldable pub gather_adapter : Link → HostAdapters → Outcome HostAdapters
  gather_adapter di a = do
    (buff, valcnt) ← or_fault di.mac_address uninitialised
    mac ← mac_convert buff
    ok (record {
      len = (4 + (a.count + 1) * (8 + 8)) % 2 ^ 32;
      freed_len = sys.after_free ((4 + (a.count + 1) * (8 + 8)) % 2 ^ 32);
      count = (a.count + 1) % 2 ^ 32;
      adapters =
          a.adapters
          ++ record {
            if_index = htonl e di.linkid;
            mac_count = htonl e valcnt;
            mac = mac ++ sys.stale a.count;
          }
            ∷ [];
    })

  -- sflow_gather_link_total. The packets sent are added to the errors.
  unfoldable pub gather_link_total : Link → HostNetIo → Outcome HostNetIo
  gather_link_total di n = do
    bytes_in ← link_stat_64 sys.kernel di.name (codes "rbytes64")
    bytes_out ← link_stat_64 sys.kernel di.name (codes "obytes64")
    errs_in ← link_stat_32 sys.kernel di.name (codes "ierrors")
    errs_out ← link_stat_32 sys.kernel di.name (codes "oerrors")
    pkts_in ← link_stat_32 sys.kernel di.name (codes "ipackets")
    pkts_out ← link_stat_32 sys.kernel di.name (codes "opackets")
    ok (record n {
      bytes_in = (n.bytes_in + bytes_in) % 2 ^ 64;
      bytes_out = (n.bytes_out + bytes_out) % 2 ^ 64;
      errs_in = (n.errs_in + errs_in) % 2 ^ 32;
      errs_out = ((n.errs_out + errs_out) % 2 ^ 32 + pkts_out) % 2 ^ 32;
      pkts_in = (n.pkts_in + pkts_in) % 2 ^ 32;
    })

  -- sflow_cr_host_adapters_pack, which does not look at the walk's result
  unfoldable pub adapters_pack : Outcome HostAdapters
  unfolding gather_adapter
  adapters_pack = do
    (_, a) ←
        walk_links sys.links gather_adapter
          (record { len = 4; freed_len = sys.after_free 4; count = 0; adapters = [] })
    ok (record a { count = htonl e a.count })

  -- sflow_cr_host_net_io_pack
  unfoldable pub net_io_pack : Outcome HostNetIo
  unfolding gather_link_total
  net_io_pack = do
    (_, i) ← walk_links sys.links gather_link_total no_traffic
    ok (record {
      bytes_in = hton_h e i.bytes_in;
      pkts_in = htonl e i.pkts_in;
      errs_in = htonl e i.errs_in;
      drops_in = htonl e i.drops_in;
      bytes_out = hton_h e i.bytes_out;
      pkts_out = htonl e i.pkts_out;
      errs_out = htonl e i.errs_out;
      drops_out = htonl e i.drops_out;
    })
