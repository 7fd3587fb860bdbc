-- ===== src/Protocol/Datagram/Pack.antt =====
-- From the list of buffered samples to the packet.
use sflow.Common.{
  ℕ, suc, ◌+◌, ◌^◌, ◌<◌, ◌≤◌, ◌≡◌, refl, sym, ap, ◌∙◌, List, [], ◌∷◌, ◌++◌, append_assoc,
  append-nil, arith, length, length-append, ok,
}
use native.Mathlib.Nat.{mod-eq_of_lt}
use sflow.Memory.Endian.{Endian, htonl, htonl-htonl, be_bytes, image-htonl, length-be_bytes}
use sflow.Memory.Layout.{
  char_array, length-char_array, struct_image, field_image, struct_size, field_size,
  length-struct_image,
}
use sflow.DataList.{Node, DataList}
use sflow.DataList.Laws.{Holds, free-Holds}
use sflow.Protocol.CounterSample.Pack.{take_all, contents, take_all_lem}
use sflow.Protocol.FlowRecord.{Memory}
use sflow.Protocol.Sample.{Sample, sample_fields}
use sflow.Protocol.Sample.Bytes.{IsSample, sample_bytes, sample_data_bytes}
use sflow.Protocol.Sequence.{All, bytes_of}
use sflow.Protocol.Datagram.{Datagram, version_fields, agent_fields, datagram_pack, datagram_flat}
use sflow.Protocol.Datagram.Bytes.{datagram_bytes, datagram_flat-datagram_bytes}

-- The head of a datagram of sFlow version 5 from an IPv4 agent, in network order.
unfoldable pub wire_head : ℕ → ℕ → List ℕ → ℕ → List ℕ
wire_head seq up_time agent_ip n =
    be_bytes 4 5
    ++ be_bytes 4 1
    ++ char_array 4 agent_ip
    ++ be_bytes 4 52
    ++ be_bytes 4 seq
    ++ be_bytes 4 up_time
    ++ be_bytes 4 n

pub length-wire_head :
    (seq up_time : ℕ) (agent_ip : List ℕ) (n : ℕ) → length (wire_head seq up_time agent_ip n) ≡ 28
unfolding wire_head
length-wire_head seq up_time agent_ip n = simp (length-append, length-be_bytes, length-char_array)

-- The packet for the samples `xs`: the head and each sample's bytes.
abbrev pub wire : Endian → Memory → ℕ → ℕ → List ℕ → List Sample → List ℕ
wire e mem seq up_time agent_ip xs =
    wire_head seq up_time agent_ip (length xs) ++ bytes_of (sample_bytes e mem) xs

abbrev datagram_of : Endian → ℕ → ℕ → List ℕ → ℕ → List Sample → Datagram
datagram_of e seq up_time agent_ip n xs = record {
  sflow_ver = htonl e 5;
  ip_ver = htonl e 1;
  v4 = agent_ip;
  sub_agent_id = htonl e 52;
  dg_seq = htonl e seq;
  up_time = htonl e up_time;
  sample_num = htonl e n;
  samples = xs;
}

pub length-contents : {A : Type 0} (ys : List (Node A)) → length (contents ys) ≡ length ys
length-contents [] = refl
length-contents (y ∷ ys) = ap suc (length-contents ys)

-- Every sample has a head of 8 bytes.
count-le :
    (e : Endian) (mem : Memory) (ys : List Sample)
    → length ys ≤ length (bytes_of (sample_bytes e mem) ys)
unfolding sample_bytes sample_fields struct_size field_size
count-le e mem [] = omega arith
count-le e mem (y ∷ ys) = omega (
  arith,
  count-le e mem ys,
  length-append (sample_bytes e mem y) (bytes_of (sample_bytes e mem) ys),
  length-append (struct_image e (sample_fields y)) (sample_data_bytes e mem y.content),
  length-struct_image e (sample_fields y),
)

module _ (e : Endian) (seq up_time : ℕ) (agent_ip : List ℕ) where
  datagram_bytes-wire :
      (mem : Memory) (xs : List Sample)
      → datagram_bytes e mem (datagram_of e seq up_time agent_ip (length xs) xs)
        ≡ wire e mem seq up_time agent_ip xs
  unfolding datagram_bytes wire_head version_fields agent_fields struct_image field_image
  datagram_bytes-wire mem xs = simp (image-htonl, append-nil, append_assoc)

  datagram_pack_lem :
      (l : DataList Sample) (xs : List (Node Sample))
      → Holds l xs
      → datagram_pack e seq up_time agent_ip l
        ≡ ok (datagram_of e seq up_time agent_ip (length (contents xs)) (contents xs), seq + 1)
  unfolding datagram_pack
  datagram_pack_lem l xs h =
      let (l', et, h') = take_all_lem xs l [] h in
      rw (ap (λ (n : ℕ). take_all n l []) h.count ∙ et, free-Holds l' [] h')
        (ap (λ (n : ℕ). ok (datagram_of e seq up_time agent_ip n (contents xs), seq + 1))
          (h.count ∙ sym (length-contents xs)))

  -- For a list of well-formed samples whose packet is below 4 GB, sflow_datagram_pack followed by
  -- sflow_datagram_flat gives the version 5 head in network order with the number of samples, and
  -- behind it the samples' bytes in the list's order; the size returned is the buffer's size, and
  -- the sequence number goes up by one.
  pub datagram_flat-datagram_pack :
      (mem : Memory) (l : DataList Sample) (xs : List (Node Sample))
      → Holds l xs
      → All (IsSample e mem) (contents xs)
      → length (wire e mem seq up_time agent_ip (contents xs)) < 2 ^ 32
      → (dg : Datagram) × (datagram_pack e seq up_time agent_ip l ≡ ok (dg, seq + 1))
        × (datagram_flat e mem dg
            ≡ ok (
              length (wire e mem seq up_time agent_ip (contents xs)),
              wire e mem seq up_time agent_ip (contents xs),
            ))
  datagram_flat-datagram_pack mem l xs h all small = (
    datagram_of e seq up_time agent_ip (length (contents xs)) (contents xs),
    datagram_pack_lem l xs h,
    datagram_flat-datagram_bytes e mem _
          (record { count = htonl-htonl e _ ∙ mod-eq_of_lt count; samples = all })
          (rw (datagram_bytes-wire mem (contents xs)) small)
        ∙ ap (λ (bs : List ℕ). ok (length bs, bs)) (datagram_bytes-wire mem (contents xs)),
  )
    where
      count : length (contents xs) < 2 ^ 32
      count = omega (
        arith,
        length-append (wire_head seq up_time agent_ip (length (contents xs)))
            (bytes_of (sample_bytes e mem) (contents xs)),
        count-le e mem (contents xs),
      )
