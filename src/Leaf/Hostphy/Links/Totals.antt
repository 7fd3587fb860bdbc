-- ===== src/Leaf/Hostphy/Links/Totals.antt =====
-- The totals of the counters of the links of a walk.
use sflow.Common.{ℕ, ◌+◌, ◌%◌, ◌^◌, ◌<◌, ◌≡◌, refl, ap, ◌∙◌, List, [], ◌∷◌, arith, some, true, ok}
use sflow.Common.Text.{codes}
use sflow.Memory.Endian.{Endian, htonl}
use sflow.Util.Hyper.{hton_h}
use sflow.Util.Kstat.{Kernel, uint32, uint64, get_one_kstat, link_stat_32, link_stat_64}
use sflow.Protocol.Leaves.Host.{HostNetIo}
use sflow.Protocol.Sequence.{All, total}
use sflow.Leaf.System.{Link, System}
use sflow.Leaf.Hostphy.Links.{walk_datalinks, gather_link_total, net_io_pack, no_traffic}
use sflow.Leaf.Hostphy.Links.Laws.{links_of, walk_links_lem}

-- What the kernel counts for a link
pub record LinkTotals : Type 0 where
  pub bytes_in : ℕ
  pub bytes_out : ℕ
  pub errs_in : ℕ
  pub errs_out : ℕ
  pub pkts_in : ℕ
  pub pkts_out : ℕ

pub record Counts (kernel : Kernel) (di : Link) (c : LinkTotals) : Type 0 where
  pub bytes_in : get_one_kstat kernel di.name (codes "rbytes64") uint64 true ≡ some c.bytes_in
  pub bytes_out : get_one_kstat kernel di.name (codes "obytes64") uint64 true ≡ some c.bytes_out
  pub errs_in : get_one_kstat kernel di.name (codes "ierrors") uint32 true ≡ some c.errs_in
  pub errs_out : get_one_kstat kernel di.name (codes "oerrors") uint32 true ≡ some c.errs_out
  pub pkts_in : get_one_kstat kernel di.name (codes "ipackets") uint32 true ≡ some c.pkts_in
  pub pkts_out : get_one_kstat kernel di.name (codes "opackets") uint32 true ≡ some c.pkts_out

module _ (e : Endian) (sys : System) (c : Link → LinkTotals) where
  abbrev AllCount : List Link → Type 0
  AllCount = All (λ di. Counts sys.kernel di (c di))

  -- The counters `n` after these links
  abbrev added : HostNetIo → List Link → HostNetIo
  added n links = record n {
    bytes_in = (n.bytes_in + total (λ di. (c di).bytes_in) links) % 2 ^ 64;
    bytes_out = (n.bytes_out + total (λ di. (c di).bytes_out) links) % 2 ^ 64;
    errs_in = (n.errs_in + total (λ di. (c di).errs_in) links) % 2 ^ 32;
    errs_out = (n.errs_out + total (λ di. (c di).errs_out + (c di).pkts_out) links) % 2 ^ 32;
    pkts_in = (n.pkts_in + total (λ di. (c di).pkts_in) links) % 2 ^ 32;
  }

  abbrev InRange : HostNetIo → Type 0
  InRange n =
      (n.bytes_in < 2 ^ 64)
      × (n.bytes_out < 2 ^ 64)
      × (n.errs_in < 2 ^ 32)
      × (n.errs_out < 2 ^ 32)
      × (n.pkts_in < 2 ^ 32)

  abbrev one_added : HostNetIo → Link → HostNetIo
  one_added n di = record n {
    bytes_in = (n.bytes_in + (c di).bytes_in % 2 ^ 64) % 2 ^ 64;
    bytes_out = (n.bytes_out + (c di).bytes_out % 2 ^ 64) % 2 ^ 64;
    errs_in = (n.errs_in + (c di).errs_in % 2 ^ 32) % 2 ^ 32;
    errs_out =
        ((n.errs_out + (c di).errs_out % 2 ^ 32) % 2 ^ 32 + (c di).pkts_out % 2 ^ 32) % 2 ^ 32;
    pkts_in = (n.pkts_in + (c di).pkts_in % 2 ^ 32) % 2 ^ 32;
  }

  gather_link_total_lem :
      (n : HostNetIo) (di : Link)
      → Counts sys.kernel di (c di)
      → gather_link_total e sys di n ≡ ok (one_added n di)
  unfolding gather_link_total link_stat_32 link_stat_64
  gather_link_total_lem n di h =
      rw (h.bytes_in, h.bytes_out, h.errs_in, h.errs_out, h.pkts_in, h.pkts_out) refl

  added-one_added :
      (n : HostNetIo) (di : Link) (rest : List Link)
      → added (one_added n di) rest ≡ added n (di ∷ rest)
  added-one_added n di rest =
      let m = one_added n di in
      let r = added n (di ∷ rest) in
      let b_in : (added m rest).bytes_in ≡ r.bytes_in = omega arith in
      let b_out : (added m rest).bytes_out ≡ r.bytes_out = omega arith in
      let e_in : (added m rest).errs_in ≡ r.errs_in = omega arith in
      let e_out : (added m rest).errs_out ≡ r.errs_out = omega arith in
      let p_in : (added m rest).pkts_in ≡ r.pkts_in = omega arith in
      rw (b_in, b_out, e_in, e_out, p_in) refl

  walk-totals :
      (links : List Link) (n : HostNetIo)
      → AllCount links
      → InRange n
      → walk_datalinks (gather_link_total e sys) links n ≡ ok (added n links)
  unfolding walk_datalinks
  walk-totals [] n h small =
      let b_in : (n.bytes_in + 0) % 2 ^ 64 ≡ n.bytes_in = omega arith in
      let b_out : (n.bytes_out + 0) % 2 ^ 64 ≡ n.bytes_out = omega arith in
      let e_in : (n.errs_in + 0) % 2 ^ 32 ≡ n.errs_in = omega arith in
      let e_out : (n.errs_out + 0) % 2 ^ 32 ≡ n.errs_out = omega arith in
      let p_in : (n.pkts_in + 0) % 2 ^ 32 ≡ n.pkts_in = omega arith in
      rw (b_in, b_out, e_in, e_out, p_in) refl
  walk-totals (di ∷ rest) n (h, hs) small = rw (gather_link_total_lem n di h) (
      walk-totals rest (one_added n di) hs (omega arith)
      ∙ ap (λ (m : HostNetIo). ok m) (added-one_added n di rest))

  -- The structure that the packing makes of links that all count
  abbrev pub net_io_of : List Link → HostNetIo
  net_io_of links = record {
    bytes_in = hton_h e (total (λ di. (c di).bytes_in) links % 2 ^ 64);
    pkts_in = htonl e (total (λ di. (c di).pkts_in) links % 2 ^ 32);
    errs_in = htonl e (total (λ di. (c di).errs_in) links % 2 ^ 32);
    drops_in = htonl e 0;
    bytes_out = hton_h e (total (λ di. (c di).bytes_out) links % 2 ^ 64);
    pkts_out = htonl e 0;
    errs_out = htonl e (total (λ di. (c di).errs_out + (c di).pkts_out) links % 2 ^ 32);
    drops_out = htonl e 0;
  }

  -- Where the kernel has every counter of every link, sflow_cr_host_net_io_pack succeeds with the
  -- sums over the links, modulo the counters' size, of the octets in and out, of the packets and
  -- the errors in, and, as errors out, of the errors and the packets out; the packets out and the
  -- drops are 0.
  pub net_io_pack-net_io_of :
      AllCount (links_of sys.links) → net_io_pack e sys ≡ ok (net_io_of (links_of sys.links))
  unfolding net_io_pack
  net_io_pack-net_io_of h =
      let links = links_of sys.links in
      let (status, walked) =
        walk_links_lem sys.links (gather_link_total e sys) no_traffic (added no_traffic links)
          (walk-totals links no_traffic h (omega arith)) in
      let z : (t : ℕ) → 0 + t ≡ t = λ t. omega arith in
      rw
        (
          walked,
          z (total (λ di. (c di).bytes_in) links),
          z (total (λ di. (c di).bytes_out) links),
          z (total (λ di. (c di).errs_in) links),
          z (total (λ di. (c di).errs_out + (c di).pkts_out) links),
          z (total (λ di. (c di).pkts_in) links),
        )
        refl
