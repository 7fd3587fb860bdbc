-- ===== src/Leaf/Ifgeneric/Laws.antt =====
-- The sample of a link: where every statistic is there it is well formed and carries them in
-- network order.
use sflow.Common.{
  ℕ, ◌≡◌, refl, sym, ap, ◌∙◌, subst, ok-injective, List, [], ◌∷◌, ◌++◌, arith, length,
  length-append, ok, append_assoc, append-nil,
}
use sflow.Common.Int.{pos}
use sflow.Common.Text.{codes}
use sflow.Memory.Endian.{Endian, htonl, be_bytes, image-htonl, htonl-htonl}
use sflow.Memory.Layout.{struct_image, field_image, struct_size, field_size, length-struct_image}
use sflow.DataList.{Node, DataList, check_data, node_create, create, append}
use sflow.DataList.Laws.{append-Holds}
use sflow.Protocol.Format.{set_data_source, set_data_format, set_data_format_lem}
use sflow.Protocol.FlowRecord.{Memory}
use sflow.Protocol.Leaves.Interface.{if_generic_fields}
use sflow.Protocol.Counter.{if_generic}
use sflow.Protocol.CounterLen.{counter_len}
use sflow.Protocol.CounterRecord.{CounterRecord, counter_record_pack, counter_record_fields}
use sflow.Protocol.CounterRecord.Bytes.{
  counter_record_bytes, IsCounterRecord, counter_record_pack-IsCounterRecord,
}
use sflow.Protocol.CounterRecord.Data.{counter_bytes}
use sflow.Protocol.CounterSample.{CounterSample, counter_sample_fields}
use sflow.Protocol.CounterSample.Bytes.{IsCounterSample, counter_sample_bytes}
use sflow.Protocol.CounterSample.Pack.{counter_sample_pack_lem, counter_sample_of, counted}
use sflow.Protocol.Sample.{Sample, counter}
use sflow.Protocol.Sample.Bytes.{IsSample, sample_data_bytes}
use sflow.Protocol.Sample.Pack.{sample_pack-IsSample}
use sflow.Source.Types.{Source, ifgeneric_data}
use sflow.Util.Kstat.{Kernel, link_stat_32, link_stat_64}
use sflow.Leaf.Ifgeneric.{counter_generic_pack, get_sample_ifgeneric}
use sflow.Leaf.Ifgeneric.Counters.{
  LinkCounters, Reports, if_counters, generic_of, generic_of-if_counters,
}

-- Sequence number, data source and number of records; the record's format and length, and the
-- structure.
unfoldable pub sample_wire : Source → ℕ → LinkCounters → List ℕ
sample_wire source datalink c =
    be_bytes 4 source.count
    ++ be_bytes 4 (set_data_source 0 source.id_type source.id)
    ++ be_bytes 4 1
    ++ be_bytes 4 1
    ++ be_bytes 4 88
    ++ if_counters datalink source.id_type c

module _ (e : Endian) (kernel : Kernel) (source : Source) (datalink : ℕ) (c : LinkCounters)
    (is : source.specific ≡ ifgeneric_data datalink) (there : Reports kernel source.name c) where
  counter_generic_pack_lem :
      counter_generic_pack e kernel source ≡ ok (generic_of e source datalink c)
  unfolding counter_generic_pack link_stat_32 link_stat_64
  counter_generic_pack_lem = rw (
    is, there.speed, there.duplex, there.state, there.in_octets, there.in_multicast,
    there.in_broadcast, there.in_errors, there.in_unknown, there.out_octets, there.out_multicast,
    there.out_broadcast, there.out_errors,
  )

  generic_record : CounterRecord
  generic_record = record {
    dfmt = htonl e (set_data_format 0 0 1);
    len = htonl e 88;
    content = if_generic (generic_of e source datalink c);
  }

  generic_record-pack :
      counter_record_pack e (if_generic (generic_of e source datalink c)) 0 1 ≡ ok generic_record
  unfolding counter_record_pack generic_record counter_len
  generic_record-pack = refl

  length-generic : length (counter_bytes e (if_generic (generic_of e source datalink c))) ≡ 88
  unfolding counter_bytes if_generic_fields struct_size field_size
  length-generic = length-struct_image e (if_generic_fields (generic_of e source datalink c))

  generic_record-IsCounterRecord : IsCounterRecord e generic_record
  generic_record-IsCounterRecord =
      let (cr, e_cr, is_cr, same) =
        counter_record_pack-IsCounterRecord e (if_generic (generic_of e source datalink c)) tt
          (omega (arith, length-generic)) in
      subst (IsCounterRecord e) (ok-injective (sym e_cr ∙ generic_record-pack)) is_cr

  generic_sample : CounterSample
  generic_sample = counter_sample_of e source 1 (generic_record ∷ [])

  generic_sample-sample_wire : counter_sample_bytes e generic_sample ≡ sample_wire source datalink c
  unfolding generic_sample sample_wire counter_sample_bytes counter_sample_fields
      counter_record_bytes generic_record counter_record_fields struct_image field_image
  generic_sample-sample_wire =
      rw (set_data_format_lem 0 1) simp
        (image-htonl, append-nil, append_assoc, generic_of-if_counters)

  length-generic_sample : length (counter_sample_bytes e generic_sample) ≡ 108
  unfolding generic_sample counter_sample_bytes counter_sample_fields counter_record_bytes
      counter_record_fields struct_size field_size generic_record
  length-generic_sample = omega (
    arith,
    length-append (struct_image e (counter_sample_fields generic_sample))
        (counter_record_bytes e generic_record ++ []),
    length-append (counter_record_bytes e generic_record) [],
    length-append (struct_image e (counter_record_fields generic_record))
        (counter_bytes e (if_generic (generic_of e source datalink c))),
    length-struct_image e (counter_sample_fields generic_sample),
    length-struct_image e (counter_record_fields generic_record),
    length-generic,
  )

  pub length-sample_wire : length (sample_wire source datalink c) ≡ 108
  length-sample_wire = ap length (sym generic_sample-sample_wire) ∙ length-generic_sample

  -- For a link source of which every statistic is there, get_sample_ifgeneric succeeds with a
  -- well-formed sample; its data are the sequence number, the source, one record of format 1 and
  -- length 88, and sFlow's if_counters, every word in network order, and the source has counted
  -- one sample more.
  pub get_sample_ifgeneric-IsSample :
      (mem : Memory)
      → (sp : Sample) × (get_sample_ifgeneric e kernel source ≡ ok (sp, counted source))
        × IsSample e mem sp
        × (sample_data_bytes e mem sp.content ≡ sample_wire source datalink c)
  unfolding get_sample_ifgeneric node_create create sample_data_bytes generic_sample
  get_sample_ifgeneric-IsSample mem =
      let empty : DataList CounterRecord = record {
        name = codes "dummy list";
        count = 0;
        data_size = pos 0;
        items = [];
      } in
      let node : Node CounterRecord = record {
        name = codes "dummy node";
        content = generic_record;
        data_size = check_data;
      } in
      let holds =
        append-Holds empty [] node (record { items = refl; count = refl }) (omega arith) in
      let packed = counter_sample_pack_lem e (append empty node) (node ∷ []) source holds in
      let is_cs : IsCounterSample e generic_sample = record {
        count = htonl-htonl e 1;
        records = (generic_record-IsCounterRecord, tt);
      } in
      let size = length-generic_sample in
      let (sp, e_sp, is_sp, same) =
        sample_pack-IsSample e mem (counter generic_sample) is_cs (omega (arith, size)) in
      (
        sp,
        rw (counter_generic_pack_lem, generic_record-pack, packed, e_sp),
        is_sp,
        rw same generic_sample-sample_wire,
      )
