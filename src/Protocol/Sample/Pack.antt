-- ===== src/Protocol/Sample/Pack.antt =====
-- sflow_sample_pack: the length of a sample is added up from the lengths of its records.
use sflow.Common.{
  ℕ, ◌+◌, ◌-◌, ◌*◌, ◌^◌, ◌<◌, ◌≡◌, refl, sym, ap, ◌∙◌, ◌&&◌, List, [], ◌∷◌, arith, length,
  length-append, ◌==◌, if◌then◌else◌, Outcome, ok, ◌>>=◌,
}
use sflow.Memory.Endian.{Endian, htonl, htonl-htonl}
use sflow.Memory.Layout.{psize, struct_image, struct_size, field_size, length-struct_image}
use sflow.Protocol.Format.{set_data_format, get_data_ent, get_data_fmt, data_format_round_trip}
use sflow.Protocol.FlowRecord.{Memory, FlowRecord, flow_record_fields}
use sflow.Protocol.FlowRecord.Bytes.{IsFlowRecord, raw_pkt_bytes, flow_record_bytes}
use sflow.Protocol.FlowSample.{flow_sample_fields}
use sflow.Protocol.FlowSample.Bytes.{flow_sample_bytes}
use sflow.Protocol.CounterRecord.{CounterRecord, counter_record_fields}
use sflow.Protocol.CounterRecord.Bytes.{IsCounterRecord, counter_record_bytes}
use sflow.Protocol.CounterRecord.Data.{counter_bytes}
use sflow.Protocol.CounterSample.{counter_sample_fields}
use sflow.Protocol.CounterSample.Bytes.{counter_sample_bytes}
use sflow.Protocol.Sequence.{All, bytes_of, sum_each, total, sum_each_lem}
use sflow.Protocol.Sample.{SampleData, flow, counter, Sample, as_flow, as_counter}
use sflow.Protocol.Sample.Bytes.{sample_data_bytes, sample_format, IsSampleData, IsSample}

-- sizeof of sflow_fs_t, sflow_cs_t, and of sflow_fr_t and sflow_cr_t
abbrev sizeof_flow_sample : ℕ
sizeof_flow_sample = 40

abbrev sizeof_counter_sample : ℕ
sizeof_counter_sample = 20

abbrev sizeof_record : ℕ
sizeof_record = 24

abbrev flow_record_size : Endian → FlowRecord → ℕ
flow_record_size e fr = htonl e fr.len + sizeof_record - psize * 2

abbrev counter_record_size : Endian → CounterRecord → ℕ
counter_record_size e cr = htonl e cr.len + sizeof_record - psize * 2

sample_len : Endian → SampleData → ℕ → ℕ → Outcome ℕ
unfolding as_flow as_counter
sample_len e d ent fmt =
    if ent == 0 && fmt == 1
    then (do
      fs ← as_flow d
      sum_each (flow_record_size e) (htonl e fs.count) 0 fs.records (sizeof_flow_sample - psize))
    else if ent == 0 && fmt == 2
    then (do
      cs ← as_counter d
      sum_each (counter_record_size e) (htonl e cs.count) 0 cs.records
          (sizeof_counter_sample - psize))
    else ok 0

unfoldable pub sample_pack : Endian → SampleData → ℕ → ℕ → Outcome Sample
unfolding sample_len
sample_pack e d ent fmt = do
  len ← sample_len e d ent fmt
  ok (record { dfmt = htonl e (set_data_format 0 ent fmt); len = htonl e len; content = d })

module _ (e : Endian) (mem : Memory) where
  flow_total :
      (xs : List FlowRecord)
      → All (IsFlowRecord e mem) xs
      → total (flow_record_size e) xs ≡ length (bytes_of (flow_record_bytes e mem) xs)
  unfolding flow_record_bytes flow_record_fields struct_size field_size
  flow_total [] h = refl
  flow_total (x ∷ xs) (hx, hxs) = omega (
    arith,
    flow_total xs hxs,
    hx.len,
    length-append (flow_record_bytes e mem x) (bytes_of (flow_record_bytes e mem) xs),
    length-append (struct_image e (flow_record_fields x)) (raw_pkt_bytes e mem x.content),
    length-struct_image e (flow_record_fields x),
  )

  counter_total :
      (xs : List CounterRecord)
      → All (IsCounterRecord e) xs
      → total (counter_record_size e) xs ≡ length (bytes_of (counter_record_bytes e) xs)
  unfolding counter_record_bytes counter_record_fields struct_size field_size
  counter_total [] h = refl
  counter_total (x ∷ xs) (hx, hxs) = omega (
    arith,
    counter_total xs hxs,
    hx.len,
    length-append (counter_record_bytes e x) (bytes_of (counter_record_bytes e) xs),
    length-append (struct_image e (counter_record_fields x)) (counter_bytes e x.content),
    length-struct_image e (counter_record_fields x),
  )

  sample_len_lem :
      (d : SampleData)
      → IsSampleData e mem d
      → length (sample_data_bytes e mem d) < 2 ^ 32
      → sample_len e d 0 (sample_format d) ≡ ok (length (sample_data_bytes e mem d))
  unfolding sample_len sample_data_bytes flow_sample_bytes counter_sample_bytes flow_sample_fields
      counter_sample_fields struct_size field_size
  sample_len_lem (flow fs) h small =
      let size : length (flow_sample_bytes e mem fs) ≡ 32 + total (flow_record_size e) fs.records =
        omega (
          arith,
          flow_total fs.records h.records,
          length-append (struct_image e (flow_sample_fields fs))
              (bytes_of (flow_record_bytes e mem) fs.records),
          length-struct_image e (flow_sample_fields fs),
        ) in
      rw h.count (sum_each_lem (flow_record_size e) fs.records 32 (omega arith) ∙ ap ok (sym size))
  sample_len_lem (counter cs) h small =
      let size : length (counter_sample_bytes e cs)
          ≡ 12 + total (counter_record_size e) cs.records =
        omega (
          arith,
          counter_total cs.records h.records,
          length-append (struct_image e (counter_sample_fields cs))
              (bytes_of (counter_record_bytes e) cs.records),
          length-struct_image e (counter_sample_fields cs),
        ) in
      rw h.count
        (sum_each_lem (counter_record_size e) cs.records 12 (omega arith) ∙ ap ok (sym size))

  -- Packing well-formed flow or counter sample data below 4 GB under their own format succeeds
  -- with a well-formed sample of these data, whose length word is the number of bytes that the
  -- data take on the wire.
  pub sample_pack-IsSample :
      (d : SampleData)
      → IsSampleData e mem d
      → length (sample_data_bytes e mem d) < 2 ^ 32
      → (sp : Sample) × (sample_pack e d 0 (sample_format d) ≡ ok sp)
        × IsSample e mem sp
        × (sp.content ≡ d)
  unfolding sample_pack
  sample_pack-IsSample d h small =
      let (ent, fmt, fits) =
        data_format_round_trip 0 (sample_format d) (omega arith) (format_lt d) in
      let dfmt = set_data_format 0 0 (sample_format d) in
      let back : htonl e (htonl e dfmt) ≡ dfmt = htonl-htonl e dfmt ∙ omega arith in
      (
        record {
          dfmt = htonl e dfmt;
          len = htonl e (length (sample_data_bytes e mem d));
          content = d;
        },
        rw (sample_len_lem d h small),
        record {
          is_data = h;
          ent = ap get_data_ent back ∙ ent;
          fmt = ap get_data_fmt back ∙ fmt;
          len = htonl-htonl e _ ∙ omega arith;
        },
        refl,
      )
    where
      format_lt : (x : SampleData) → sample_format x < 2 ^ 20
      format_lt (flow fs) = omega arith
      format_lt (counter cs) = omega arith
