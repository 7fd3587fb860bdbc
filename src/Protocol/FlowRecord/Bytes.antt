-- ===== src/Protocol/FlowRecord/Bytes.antt =====
-- What a flow record puts on the wire.
use sflow.Common.{
  ℕ, ◌+◌, ◌%◌, ◌≤◌, ◌≡◌, refl, sym, ap, ◌∙◌, List, ◌++◌, arith, length, take, le→leb, length-take,
  length-append,
}
use sflow.Memory.Endian.{Endian, htonl, htonl-htonl}
use sflow.Memory.Layout.{struct_image, struct_size, field_size, length-struct_image}
use sflow.Memory.Buffer.{pure, Writes, memcpy, memcpy-Writes, map-Writes}
use sflow.Memory.Flat.{headed-Writes}
use sflow.Protocol.Format.{set_data_format, get_data_ent, get_data_fmt, data_format_round_trip}
use sflow.Protocol.FlowRecord.{
  Memory, RawPkt, raw_pkt_fields, crop, raw_pkt_pack, raw_pkt_flat, FlowRecord, flow_record_fields,
  flow_record_pack, flow_data_flat, flow_record_flat,
}
use sflow.Source.Types.{Source}

-- What is stripped and what is sent make up the frame; what is sent is a multiple of 4 and at
-- most 128 bytes.
pub crop_lem : (len : ℕ) → (crop len ≤ len) × (crop len ≤ 128) × (crop len % 4 ≡ 0)
unfolding crop
crop_lem len = ground arith

unfoldable pub raw_pkt_bytes : Endian → Memory → RawPkt → List ℕ
raw_pkt_bytes e mem r =
    struct_image e (raw_pkt_fields r) ++ take (htonl e r.header_size) (mem r.header)

unfoldable pub flow_record_bytes : Endian → Memory → FlowRecord → List ℕ
unfolding raw_pkt_bytes
flow_record_bytes e mem fr =
    struct_image e (flow_record_fields fr) ++ raw_pkt_bytes e mem fr.content

-- The object that the header points to holds as many bytes as the record says.
abbrev pub IsReadable : Endian → Memory → RawPkt → Type 0
IsReadable e mem r = htonl e r.header_size ≤ length (mem r.header)

pub record IsFlowRecord (e : Endian) (mem : Memory) (fr : FlowRecord) : Type 0 where
  pub readable : IsReadable e mem fr.content
  pub ent : get_data_ent (htonl e fr.dfmt) ≡ 0
  pub fmt : get_data_fmt (htonl e fr.dfmt) ≡ 1
  pub len : htonl e fr.len ≡ length (raw_pkt_bytes e mem fr.content)

module _ (e : Endian) (mem : Memory) where
  length-header :
      (r : RawPkt)
      → IsReadable e mem r
      → length (take (htonl e r.header_size) (mem r.header)) ≡ htonl e r.header_size
  length-header r h = length-take (htonl e r.header_size) (mem r.header) ∙ omega arith

  raw_pkt-Writes :
      (r : RawPkt) (at : ℕ)
      → IsReadable e mem r
      → Writes at (raw_pkt_bytes e mem r) (length (raw_pkt_bytes e mem r)) (raw_pkt_flat e mem at r)
  unfolding raw_pkt_flat raw_pkt_bytes struct_size field_size raw_pkt_fields
  raw_pkt-Writes r at h = headed-Writes e at 16 (raw_pkt_fields r) header _ refl (
      rw (le→leb (htonl e r.header_size) (length (mem r.header)) h) (
        map-Writes (at + 16) header tt (length header) (memcpy (at + 16) header) _
          (memcpy-Writes (at + 16) header) (ap pure (sym (length-header r h)))))
    where
      header : List ℕ
      header = take (htonl e r.header_size) (mem r.header)

  -- A well-formed record is flattened to its words and as much of the packet as it states, whatever
  -- the buffer holds elsewhere, and the number of these bytes is returned.
  pub flow_record-Writes :
      (fr : FlowRecord) (at : ℕ)
      → IsFlowRecord e mem fr
      → Writes at
          (flow_record_bytes e mem fr)
          (length (flow_record_bytes e mem fr))
          (flow_record_flat e mem at fr)
  unfolding flow_record_flat flow_record_bytes flow_data_flat flow_record_fields struct_size
      field_size
  flow_record-Writes fr at h =
      headed-Writes e at 8 (flow_record_fields fr) (raw_pkt_bytes e mem fr.content) _ refl
        (rw (h.ent, h.fmt) (raw_pkt-Writes fr.content (at + 8) h.readable))

  -- The four words of the packed header are read back by the collector as they were meant.
  pub raw_pkt_pack-size : (pkt len : ℕ) → htonl e (raw_pkt_pack e pkt len).header_size ≡ crop len
  unfolding raw_pkt_pack
  raw_pkt_pack-size pkt len = htonl-htonl e (crop len) ∙ omega (arith, crop_lem len)

  -- The record of a packet that is in memory, from a source of format 0, 1, is well formed: its
  -- format is read back and its length word is the number of bytes of the raw packet header on the
  -- wire.
  pub flow_record_pack-IsFlowRecord :
      (pkt len : ℕ) (source : Source)
      → source.ent ≡ 0
      → source.fmt ≡ 1
      → len ≤ length (mem pkt)
      → IsFlowRecord e mem (flow_record_pack e (raw_pkt_pack e pkt len) source)
  unfolding flow_record_pack raw_pkt_bytes raw_pkt_fields struct_size field_size
  flow_record_pack-IsFlowRecord pkt len source he hf there =
      let r = raw_pkt_pack e pkt len in
      let readable : IsReadable e mem r =
        rw (raw_pkt_pack-size pkt len) (omega (arith, crop_lem len, at_pkt pkt len)) in
      record {
        readable = readable;
        ent =
            rw (he, hf)
              (ap get_data_ent back ∙ (data_format_round_trip 0 1 (omega arith) (omega arith)).0);
        fmt =
            rw (he, hf)
              (ap get_data_fmt back ∙ (data_format_round_trip 0 1 (omega arith) (omega arith)).1);
        len =
            rw (he, hf)
              (htonl-htonl e _
                ∙ omega (
                  arith,
                  raw_pkt_pack-size pkt len,
                  crop_lem len,
                  length-append (struct_image e (raw_pkt_fields r))
                      (take (htonl e r.header_size) (mem r.header)),
                  length-struct_image e (raw_pkt_fields r),
                  length-header r readable,
                ));
      }
    where
      back : htonl e (htonl e (set_data_format 0 0 1)) ≡ set_data_format 0 0 1
      back =
          htonl-htonl e _
          ∙ omega (arith, (data_format_round_trip 0 1 (omega arith) (omega arith)).2)

      at_pkt : (p n : ℕ) → length (mem (raw_pkt_pack e p n).header) ≡ length (mem p)
      at_pkt p n = unfold raw_pkt_pack in refl

  -- The record for a packet has 152 bytes at most.
  pub flow_record_pack-size :
      (pkt len : ℕ) (source : Source)
      → len ≤ length (mem pkt)
      → length (flow_record_bytes e mem (flow_record_pack e (raw_pkt_pack e pkt len) source)) ≤ 152
  unfolding flow_record_bytes raw_pkt_bytes flow_record_pack flow_record_fields raw_pkt_fields
      struct_size field_size
  flow_record_pack-size pkt len source there =
      let fr = flow_record_pack e (raw_pkt_pack e pkt len) source in
      let r = raw_pkt_pack e pkt len in
      omega (
        arith,
        length-append (struct_image e (flow_record_fields fr)) (raw_pkt_bytes e mem r),
        length-append (struct_image e (raw_pkt_fields r))
            (take (htonl e r.header_size) (mem r.header)),
        length-struct_image e (flow_record_fields fr),
        length-struct_image e (raw_pkt_fields r),
        length-take (htonl e r.header_size) (mem r.header),
        raw_pkt_pack-size pkt len,
        crop_lem len,
      )
