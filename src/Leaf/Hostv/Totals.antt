-- ===== src/Leaf/Hostv/Totals.antt =====
-- The totals of the counters of a zone's links.
use sflow.Common.{ℕ, ◌+◌, ◌%◌, ◌^◌, ◌<◌, ◌≡◌, refl, ap, ◌∙◌, List, [], ◌∷◌, arith, ok}
use sflow.Memory.Endian.{Endian, htonl}
use sflow.Util.Hyper.{hton_h}
use sflow.Util.Kstat.{link_stat_32, link_stat_64}
use sflow.Protocol.Leaves.Virtual.{VirtNetIo}
use sflow.Protocol.Sequence.{All, total}
use sflow.Leaf.System.{Link}
use sflow.Leaf.Hostphy.Links.{walk_datalinks}
use sflow.Leaf.Hostphy.Links.Laws.{links_of, walk_links_lem}
use sflow.Leaf.Hostphy.Links.Totals.{LinkTotals, Counts}
use sflow.Leaf.Hostv.Packs.{ZoneSystem, no_zone_traffic, gather_zone_link_total, virt_net_io_pack}

module _ (e : Endian) (zs : ZoneSystem) (c : Link → LinkTotals) where
  abbrev AllCount : List Link → Type 0
  AllCount = All (λ di. Counts zs.kernel di (c di))

  -- The counters `n` after these links
  abbrev added : VirtNetIo → List Link → VirtNetIo
  added n links = record n {
    rx_bytes = (n.rx_bytes + total (λ di. (c di).bytes_in) links) % 2 ^ 64;
    tx_bytes = (n.tx_bytes + total (λ di. (c di).bytes_out) links) % 2 ^ 64;
    rx_errs = (n.rx_errs + total (λ di. (c di).errs_in) links) % 2 ^ 32;
    tx_errs = (n.tx_errs + total (λ di. (c di).errs_out) links) % 2 ^ 32;
    rx_packets = (n.rx_packets + total (λ di. (c di).pkts_in) links) % 2 ^ 32;
    tx_packets = (n.tx_packets + total (λ di. (c di).pkts_out) links) % 2 ^ 32;
  }

  abbrev InRange : VirtNetIo → Type 0
  InRange n =
      (n.rx_bytes < 2 ^ 64)
      × (n.tx_bytes < 2 ^ 64)
      × (n.rx_errs < 2 ^ 32)
      × (n.tx_errs < 2 ^ 32)
      × (n.rx_packets < 2 ^ 32)
      × (n.tx_packets < 2 ^ 32)

  abbrev one_added : VirtNetIo → Link → VirtNetIo
  one_added n di = record n {
    rx_bytes = (n.rx_bytes + (c di).bytes_in % 2 ^ 64) % 2 ^ 64;
    tx_bytes = (n.tx_bytes + (c di).bytes_out % 2 ^ 64) % 2 ^ 64;
    rx_errs = (n.rx_errs + (c di).errs_in % 2 ^ 32) % 2 ^ 32;
    tx_errs = (n.tx_errs + (c di).errs_out % 2 ^ 32) % 2 ^ 32;
    rx_packets = (n.rx_packets + (c di).pkts_in % 2 ^ 32) % 2 ^ 32;
    tx_packets = (n.tx_packets + (c di).pkts_out % 2 ^ 32) % 2 ^ 32;
  }

  gather_zone_link_total_lem :
      (n : VirtNetIo) (di : Link)
      → Counts zs.kernel di (c di)
      → gather_zone_link_total zs di n ≡ ok (one_added n di)
  unfolding gather_zone_link_total link_stat_32 link_stat_64
  gather_zone_link_total_lem n di h =
      rw (h.bytes_in, h.bytes_out, h.errs_in, h.errs_out, h.pkts_in, h.pkts_out) refl

  added-one_added :
      (n : VirtNetIo) (di : Link) (rest : List Link)
      → added (one_added n di) rest ≡ added n (di ∷ rest)
  added-one_added n di rest =
      let m = one_added n di in
      let r = added n (di ∷ rest) in
      let rx_b : (added m rest).rx_bytes ≡ r.rx_bytes = omega arith in
      let tx_b : (added m rest).tx_bytes ≡ r.tx_bytes = omega arith in
      let rx_e : (added m rest).rx_errs ≡ r.rx_errs = omega arith in
      let tx_e : (added m rest).tx_errs ≡ r.tx_errs = omega arith in
      let rx_p : (added m rest).rx_packets ≡ r.rx_packets = omega arith in
      let tx_p : (added m rest).tx_packets ≡ r.tx_packets = omega arith in
      rw (rx_b, tx_b, rx_e, tx_e, rx_p, tx_p) refl

  walk-totals :
      (links : List Link) (n : VirtNetIo)
      → AllCount links
      → InRange n
      → walk_datalinks (gather_zone_link_total zs) links n ≡ ok (added n links)
  unfolding walk_datalinks
  walk-totals [] n h small =
      let rx_b : (n.rx_bytes + 0) % 2 ^ 64 ≡ n.rx_bytes = omega arith in
      let tx_b : (n.tx_bytes + 0) % 2 ^ 64 ≡ n.tx_bytes = omega arith in
      let rx_e : (n.rx_errs + 0) % 2 ^ 32 ≡ n.rx_errs = omega arith in
      let tx_e : (n.tx_errs + 0) % 2 ^ 32 ≡ n.tx_errs = omega arith in
      let rx_p : (n.rx_packets + 0) % 2 ^ 32 ≡ n.rx_packets = omega arith in
      let tx_p : (n.tx_packets + 0) % 2 ^ 32 ≡ n.tx_packets = omega arith in
      rw (rx_b, tx_b, rx_e, tx_e, rx_p, tx_p) refl
  walk-totals (di ∷ rest) n (h, hs) small = rw (gather_zone_link_total_lem n di h) (
      walk-totals rest (one_added n di) hs (omega arith)
      ∙ ap (λ (m : VirtNetIo). ok m) (added-one_added n di rest))

  abbrev pub zone_net_io_of : List Link → VirtNetIo
  zone_net_io_of links = record {
    rx_bytes = hton_h e (total (λ di. (c di).bytes_in) links % 2 ^ 64);
    rx_packets = htonl e (total (λ di. (c di).pkts_in) links % 2 ^ 32);
    rx_errs = htonl e (total (λ di. (c di).errs_in) links % 2 ^ 32);
    rx_drop = 0;
    tx_bytes = hton_h e (total (λ di. (c di).bytes_out) links % 2 ^ 64);
    tx_packets = htonl e (total (λ di. (c di).pkts_out) links % 2 ^ 32);
    tx_errs = htonl e (total (λ di. (c di).errs_out) links % 2 ^ 32);
    tx_drop = 0;
  }

  -- Where the kernel has every counter of every link of the zone, sflow_cr_virt_net_io_pack
  -- succeeds with the sums over the links, modulo the counters' size, of the octets, the packets
  -- and the errors in each direction; the drops are 0.
  pub virt_net_io_pack-zone_net_io_of :
      (zone_id : ℕ)
      → AllCount (links_of (zs.zone_links zone_id))
      → virt_net_io_pack e zs zone_id ≡ ok (zone_net_io_of (links_of (zs.zone_links zone_id)))
  unfolding virt_net_io_pack
  virt_net_io_pack-zone_net_io_of zone_id h =
      let walk = zs.zone_links zone_id in
      let links = links_of walk in
      let (status, walked) =
        walk_links_lem walk (gather_zone_link_total zs) no_zone_traffic
          (added no_zone_traffic links) (walk-totals links no_zone_traffic h (omega arith)) in
      let z : (t : ℕ) → 0 + t ≡ t = λ t. omega arith in
      rw
        (
          walked,
          z (total (λ di. (c di).bytes_in) links),
          z (total (λ di. (c di).bytes_out) links),
          z (total (λ di. (c di).errs_in) links),
          z (total (λ di. (c di).errs_out) links),
          z (total (λ di. (c di).pkts_in) links),
          z (total (λ di. (c di).pkts_out) links),
        )
        refl
