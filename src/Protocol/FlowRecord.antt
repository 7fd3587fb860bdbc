-- ===== src/Protocol/FlowRecord.antt =====
-- Flow records of sflow/sflow_protocol_branches.c and the raw packet header of
-- sflow/sflow_protocol_leaf_flowsample.c. The header of the packet is not copied when the record
-- is packed: the record points to the buffer that the packet was read into, and the bytes are
-- taken when the record is flattened. `mem` is the memory at that moment, the bytes from an
-- address on.
pub mod Bytes
use sflow.Common.{
  ℕ, ◌+◌, ◌-◌, ◌*◌, ◌%◌, ◌^◌, ◌&&◌, List, [], ◌∷◌, take, length, ltb, leb, ◌==◌, if◌then◌else◌,
  Outcome, ok, fault, out_of_bounds,
}
use sflow.Memory.Endian.{Endian, htonl}
use sflow.Memory.Layout.{Field, u32, psize, struct_image}
use sflow.Memory.Buffer.{Cmd, pure, fail, ◌>>=◌, ◌>>◌, memcpy}
use sflow.Protocol.Format.{set_data_format, get_data_ent, get_data_fmt}
use sflow.Source.Types.{Source}

abbrev pub Memory : Type 0
Memory = ℕ → List ℕ

-- sflow_fr_raw_pkt_header_t, packed; `header` is a pointer.
pub record RawPkt : Type 0 where
  pub header_protocol : ℕ
  pub frame_length : ℕ
  pub stripped : ℕ
  pub header_size : ℕ
  pub header : ℕ

unfoldable pub raw_pkt_fields : RawPkt → List Field
raw_pkt_fields r =
    u32 r.header_protocol ∷ u32 r.frame_length ∷ u32 r.stripped ∷ u32 r.header_size ∷ []

-- sizeof (sflow_fr_raw_pkt_header_t)
abbrev pub sizeof_raw_pkt : ℕ
sizeof_raw_pkt = 32

-- At most 128 bytes, a multiple of 4.
unfoldable pub crop : ℕ → ℕ
crop len = let c = if ltb 128 len then 128 else len in c - c % 4

unfoldable pub raw_pkt_pack : Endian → ℕ → ℕ → RawPkt
raw_pkt_pack e raw_header len = record {
  header_protocol = htonl e 1;
  frame_length = htonl e len;
  stripped = htonl e (len - crop len);
  header_size = htonl e (crop len);
  header = raw_header;
}

-- The first n bytes of an object
unfoldable pub read_bytes : ℕ → List ℕ → Outcome (List ℕ)
read_bytes n bs = if leb n (length bs) then ok (take n bs) else fault out_of_bounds

unfoldable pub raw_pkt_flat : Endian → Memory → ℕ → RawPkt → Cmd ℕ
unfolding read_bytes
raw_pkt_flat e mem at r = do
  memcpy at (struct_image e (raw_pkt_fields r))
  n ← (do
    header ← fail (read_bytes (htonl e r.header_size) (mem r.header))
    memcpy (at + 16) header
    pure (htonl e r.header_size))
  pure (16 + n)

-- sflow_fr_t, packed
pub record FlowRecord : Type 0 where
  pub dfmt : ℕ
  pub len : ℕ
  pub content : RawPkt

unfoldable pub flow_record_fields : FlowRecord → List Field
flow_record_fields fr = u32 fr.dfmt ∷ u32 fr.len ∷ []

unfoldable pub flow_record_pack : Endian → RawPkt → Source → FlowRecord
flow_record_pack e r source = record {
  dfmt = htonl e (set_data_format 0 source.ent source.fmt);
  len = htonl e (
      if source.ent == 0 && source.fmt == 1
      then (sizeof_raw_pkt - psize * 2 + htonl e r.header_size) % 2 ^ 32
      else 0);
  content = r;
}

unfoldable pub flow_data_flat : Endian → Memory → ℕ → ℕ → ℕ → RawPkt → Cmd ℕ
flow_data_flat e mem ent fmt at r = if ent == 0 && fmt == 1 then raw_pkt_flat e mem at r else pure 0

unfoldable pub flow_record_flat : Endian → Memory → ℕ → FlowRecord → Cmd ℕ
flow_record_flat e mem at fr = do
  memcpy at (struct_image e (flow_record_fields fr))
  let dfmt = htonl e fr.dfmt
  n ← flow_data_flat e mem (get_data_ent dfmt) (get_data_fmt dfmt) (at + 8) fr.content
  pure (8 + n)
