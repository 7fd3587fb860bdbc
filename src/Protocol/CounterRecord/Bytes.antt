-- ===== src/Protocol/CounterRecord/Bytes.antt =====
-- What a counter record puts on the wire: its two words and the image of its data, of which the
-- length word states the size.
use sflow.Common.{ℕ, ◌+◌, ◌%◌, ◌^◌, ◌<◌, ◌≡◌, refl, ap, ◌∙◌, List, ◌++◌, arith, length, ok}
use sflow.Memory.Endian.{Endian, htonl, htonl-htonl}
use sflow.Memory.Layout.{struct_image, struct_size, field_size}
use sflow.Memory.Buffer.{Writes}
use sflow.Memory.Flat.{headed-Writes}
use sflow.Protocol.Format.{set_data_format, get_data_ent, get_data_fmt, data_format_round_trip}
use sflow.Protocol.Counter.{
  Counter, if_generic, host_descr, host_adapters, host_parent, host_cpu, host_memory, host_disk_io,
  host_net_io, virt_leaf, virt_cpu, virt_memory, virt_net_io, flow_stat, null,
}
use sflow.Protocol.CounterRecord.{
  CounterRecord, counter_record_fields, counter_record_pack, counter_record_flat,
}
use sflow.Protocol.CounterRecord.Data.{
  enterprise, format, counter_bytes, IsCounter, counter_data-Writes, counter_len_lem,
}

unfoldable pub counter_record_bytes : Endian → CounterRecord → List ℕ
unfolding counter_bytes
counter_record_bytes e cr = struct_image e (counter_record_fields cr) ++ counter_bytes e cr.content

-- The two words of the record describe its data.
pub record IsCounterRecord (e : Endian) (cr : CounterRecord) : Type 0 where
  pub is_counter : IsCounter cr.content
  pub ent : get_data_ent (htonl e cr.dfmt) ≡ enterprise cr.content
  pub fmt : get_data_fmt (htonl e cr.dfmt) ≡ format cr.content
  pub len : htonl e cr.len ≡ length (counter_bytes e cr.content)

module _ (e : Endian) where
  enterprise-lt : (d : Counter) → enterprise d < 2 ^ 12
  enterprise-lt (if_generic x) = omega arith
  enterprise-lt (host_descr x) = omega arith
  enterprise-lt (host_adapters x) = omega arith
  enterprise-lt (host_parent x) = omega arith
  enterprise-lt (host_cpu x) = omega arith
  enterprise-lt (host_memory x) = omega arith
  enterprise-lt (host_disk_io x) = omega arith
  enterprise-lt (host_net_io x) = omega arith
  enterprise-lt (virt_leaf x) = omega arith
  enterprise-lt (virt_cpu x) = omega arith
  enterprise-lt (virt_memory x) = omega arith
  enterprise-lt (virt_net_io x) = omega arith
  enterprise-lt (flow_stat x) = omega arith
  enterprise-lt null = omega arith

  pub format-lt : (d : Counter) → format d < 2 ^ 20
  format-lt (if_generic x) = omega arith
  format-lt (host_descr x) = omega arith
  format-lt (host_adapters x) = omega arith
  format-lt (host_parent x) = omega arith
  format-lt (host_cpu x) = omega arith
  format-lt (host_memory x) = omega arith
  format-lt (host_disk_io x) = omega arith
  format-lt (host_net_io x) = omega arith
  format-lt (virt_leaf x) = omega arith
  format-lt (virt_cpu x) = omega arith
  format-lt (virt_memory x) = omega arith
  format-lt (virt_net_io x) = omega arith
  format-lt (flow_stat x) = omega arith
  format-lt null = omega arith

  -- Packing any counter structure under its own enterprise and format, if the sizes it carries are
  -- right and it is below 4 GB, succeeds with a well-formed record of it, from which the
  -- enterprise, the format and the structure's length are read back.
  pub counter_record_pack-IsCounterRecord :
      (d : Counter)
      → IsCounter d
      → length (counter_bytes e d) < 2 ^ 32
      → (cr : CounterRecord) × (counter_record_pack e d (enterprise d) (format d) ≡ ok cr)
        × IsCounterRecord e cr
        × (cr.content ≡ d)
  unfolding counter_record_pack
  counter_record_pack-IsCounterRecord d h small =
      let (ent, fmt, fits) =
        data_format_round_trip (enterprise d) (format d) (enterprise-lt d) (format-lt d) in
      let dfmt = set_data_format 0 (enterprise d) (format d) in
      let back : htonl e (htonl e dfmt) ≡ dfmt = htonl-htonl e dfmt ∙ omega arith in
      (
        record {
          dfmt = htonl e dfmt;
          len = htonl e (length (counter_bytes e d) % 2 ^ 32);
          content = d;
        },
        rw (counter_len_lem e d h),
        record {
          is_counter = h;
          ent = ap get_data_ent back ∙ ent;
          fmt = ap get_data_fmt back ∙ fmt;
          len = htonl-htonl e _ ∙ omega arith;
        },
        refl,
      )

  -- A well-formed counter record is flattened by sflow_counter_record_flat to its two words and
  -- the image of its structure, whatever the buffer holds elsewhere, and the number of these bytes
  -- is returned. A record of adapters is well formed only if their length word, which the code
  -- reads behind free, is still there.
  pub counter_record-Writes :
      (cr : CounterRecord) (at : ℕ)
      → IsCounterRecord e cr
      → Writes at
          (counter_record_bytes e cr)
          (length (counter_record_bytes e cr))
          (counter_record_flat e at cr)
  unfolding counter_record_flat counter_record_bytes counter_record_fields struct_size field_size
  counter_record-Writes cr at h =
      headed-Writes e at 8 (counter_record_fields cr) (counter_bytes e cr.content) _ refl
        (rw (h.ent, h.fmt) (counter_data-Writes e cr.content (at + 8) h.is_counter))
