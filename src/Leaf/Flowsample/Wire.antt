-- ===== src/Leaf/Flowsample/Wire.antt =====
-- The bytes of the flow record of one packet, at the moment when it is flattened: the packet is
-- not copied before, and the buffer it was read into belongs to the source.
use sflow.Common.{
  ℕ, ◌+◌, ◌-◌, ◌%◌, ◌^◌, ◌≤◌, ◌≡◌, ◌∙◌, subst, List, ◌++◌, arith, take, length, append_assoc,
  append-nil,
}
use sflow.Memory.Endian.{Endian, htonl, be_bytes, image-htonl, htonl-htonl}
use sflow.Memory.Layout.{struct_image, field_image}
use sflow.Memory.Buffer.{Writes}
use sflow.Protocol.FlowRecord.{
  Memory, raw_pkt_fields, crop, raw_pkt_pack, flow_record_fields, flow_record_pack,
  flow_record_flat,
}
use sflow.Protocol.FlowRecord.Bytes.{
  raw_pkt_bytes, flow_record_bytes, crop_lem, flow_record_pack-IsFlowRecord, flow_record-Writes,
}
use sflow.Protocol.Format.{set_data_format_lem}
use sflow.Source.Types.{Source}

-- Format 1, the length of what follows, protocol 1 (Ethernet), the frame's length, what is
-- stripped of it, the length of the header and the header.
unfoldable pub packet_wire : ℕ → List ℕ → List ℕ
packet_wire len bytes =
    be_bytes 4 1
    ++ be_bytes 4 (16 + crop len)
    ++ be_bytes 4 1
    ++ be_bytes 4 len
    ++ be_bytes 4 (len - crop len)
    ++ be_bytes 4 (crop len)
    ++ take (crop len) bytes

module _ (e : Endian) (mem : Memory) (pkt len : ℕ) (source : Source) (ent : source.ent ≡ 0)
    (fmt : source.fmt ≡ 1) where
  crop_back : htonl e (htonl e (crop len)) ≡ crop len
  crop_back = htonl-htonl e (crop len) ∙ omega (arith, crop_lem len)

  sum_back : (16 + crop len) % 2 ^ 32 ≡ 16 + crop len
  sum_back = omega (arith, crop_lem len)

  flow_record_bytes-packet_wire :
      flow_record_bytes e mem (flow_record_pack e (raw_pkt_pack e pkt len) source)
      ≡ packet_wire len (mem pkt)
  unfolding packet_wire flow_record_bytes raw_pkt_bytes flow_record_pack flow_record_fields
      raw_pkt_pack raw_pkt_fields struct_image field_image
  flow_record_bytes-packet_wire =
      rw (ent, fmt, crop_back, sum_back, set_data_format_lem 0 1) simp
        (image-htonl, append-nil, append_assoc)

  -- A record packed for a packet from a source of format 0, 1 is flattened to its six words in
  -- network order and as many bytes as were kept of the packet, taken from what the buffer holds
  -- when the record is flattened; the buffer has to hold as many bytes as the packet had.
  pub flow_record_flat-packet_wire :
      (at : ℕ)
      → len ≤ length (mem pkt)
      → Writes at
          (packet_wire len (mem pkt))
          (length (packet_wire len (mem pkt)))
          (flow_record_flat e mem at (flow_record_pack e (raw_pkt_pack e pkt len) source))
  flow_record_flat-packet_wire at there =
      subst
        (λ (bs : List ℕ).
          Writes at bs (length bs)
            (flow_record_flat e mem at (flow_record_pack e (raw_pkt_pack e pkt len) source)))
        flow_record_bytes-packet_wire
        (flow_record-Writes e mem _ at
          (flow_record_pack-IsFlowRecord e mem pkt len source ent fmt there))
