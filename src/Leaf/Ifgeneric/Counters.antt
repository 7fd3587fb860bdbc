-- ===== src/Leaf/Ifgeneric/Counters.antt =====
-- The statistics of a link, the structure that is made of them, and its bytes on the wire.
use sflow.Common.{ℕ, ◌%◌, ◌^◌, ◌≡◌, true, List, ◌++◌, some, append-nil}
use sflow.Common.Text.{codes}
use sflow.Memory.Endian.{Endian, htonl, be_bytes, image-htonl}
use sflow.Memory.Layout.{struct_image, field_image}
use sflow.Util.Hyper.{hton_h, image-hton_h}
use sflow.Protocol.Leaves.Interface.{IfGeneric, if_generic_fields}
use sflow.Protocol.Counter.{if_generic}
use sflow.Protocol.CounterRecord.Data.{counter_bytes}
use sflow.Source.Types.{Source}
use sflow.Util.Kstat.{Kernel, uint32, uint64, get_one_kstat}
use sflow.Leaf.Ifgeneric.{unknown}

-- The statistics that a sample takes of a link
pub record LinkCounters : Type 0 where
  pub speed : ℕ
  pub duplex : ℕ
  pub state : ℕ
  pub in_octets : ℕ
  pub in_multicast : ℕ
  pub in_broadcast : ℕ
  pub in_errors : ℕ
  pub in_unknown : ℕ
  pub out_octets : ℕ
  pub out_multicast : ℕ
  pub out_broadcast : ℕ
  pub out_errors : ℕ

-- The kernel keeps `c` for the link `name`.
pub record Reports (kernel : Kernel) (name : List ℕ) (c : LinkCounters) : Type 0 where
  pub speed : get_one_kstat kernel name (codes "ifspeed") uint64 true ≡ some c.speed
  pub duplex : get_one_kstat kernel name (codes "link_duplex") uint32 true ≡ some c.duplex
  pub state : get_one_kstat kernel name (codes "link_state") uint32 true ≡ some c.state
  pub in_octets : get_one_kstat kernel name (codes "rbytes64") uint64 true ≡ some c.in_octets
  pub in_multicast : get_one_kstat kernel name (codes "multircv") uint32 true ≡ some c.in_multicast
  pub in_broadcast : get_one_kstat kernel name (codes "brdcstrcv") uint32 true ≡ some c.in_broadcast
  pub in_errors : get_one_kstat kernel name (codes "ierrors") uint32 true ≡ some c.in_errors
  pub in_unknown : get_one_kstat kernel name (codes "unknowns") uint32 true ≡ some c.in_unknown
  pub out_octets : get_one_kstat kernel name (codes "obytes64") uint64 true ≡ some c.out_octets
  pub out_multicast :
      get_one_kstat kernel name (codes "multixmt") uint32 true ≡ some c.out_multicast
  pub out_broadcast :
      get_one_kstat kernel name (codes "brdcstxmt") uint32 true ≡ some c.out_broadcast
  pub out_errors : get_one_kstat kernel name (codes "oerrors") uint32 true ≡ some c.out_errors

-- The structure on the wire, sFlow's if_counters
unfoldable pub if_counters : ℕ → ℕ → LinkCounters → List ℕ
if_counters datalink id_type c =
    be_bytes 4 datalink
    ++ be_bytes 4 id_type
    ++ be_bytes 8 (c.speed % 2 ^ 64)
    ++ be_bytes 4 (c.duplex % 2 ^ 32)
    ++ be_bytes 4 (c.state % 2 ^ 32)
    ++ be_bytes 8 (c.in_octets % 2 ^ 64)
    ++ be_bytes 4 unknown
    ++ be_bytes 4 (c.in_multicast % 2 ^ 32)
    ++ be_bytes 4 (c.in_broadcast % 2 ^ 32)
    ++ be_bytes 4 unknown
    ++ be_bytes 4 (c.in_errors % 2 ^ 32)
    ++ be_bytes 4 (c.in_unknown % 2 ^ 32)
    ++ be_bytes 8 (c.out_octets % 2 ^ 64)
    ++ be_bytes 4 unknown
    ++ be_bytes 4 (c.out_multicast % 2 ^ 32)
    ++ be_bytes 4 (c.out_broadcast % 2 ^ 32)
    ++ be_bytes 4 unknown
    ++ be_bytes 4 (c.out_errors % 2 ^ 32)
    ++ be_bytes 4 1

abbrev pub generic_of : Endian → Source → ℕ → LinkCounters → IfGeneric
generic_of e source datalink c = record {
  if_index = htonl e datalink;
  if_type = htonl e source.id_type;
  if_speed = hton_h e (c.speed % 2 ^ 64);
  if_direction = htonl e (c.duplex % 2 ^ 32);
  if_status = htonl e (c.state % 2 ^ 32);
  if_in_octets = hton_h e (c.in_octets % 2 ^ 64);
  if_in_ucast_pkts = htonl e unknown;
  if_in_multicast_pkts = htonl e (c.in_multicast % 2 ^ 32);
  if_in_broadcast_pkts = htonl e (c.in_broadcast % 2 ^ 32);
  if_in_discards = htonl e unknown;
  if_in_errors = htonl e (c.in_errors % 2 ^ 32);
  if_in_unknown_protos = htonl e (c.in_unknown % 2 ^ 32);
  if_out_octets = hton_h e (c.out_octets % 2 ^ 64);
  if_out_ucast_pkts = htonl e unknown;
  if_out_multicast_pkts = htonl e (c.out_multicast % 2 ^ 32);
  if_out_broadcast_pkts = htonl e (c.out_broadcast % 2 ^ 32);
  if_out_discards = htonl e unknown;
  if_out_errors = htonl e (c.out_errors % 2 ^ 32);
  if_promiscuous_mode = htonl e 1;
}

pub generic_of-if_counters :
    (e : Endian) (source : Source) (datalink : ℕ) (c : LinkCounters)
    → counter_bytes e (if_generic (generic_of e source datalink c))
      ≡ if_counters datalink source.id_type c
unfolding counter_bytes if_counters if_generic_fields struct_image field_image be_bytes
generic_of-if_counters e source datalink c = simp (image-htonl, image-hton_h, append-nil)
