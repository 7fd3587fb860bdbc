-- ===== src/Leaf/Records/Laws.antt =====
-- A sample of any structures: the records in the order in which they were attached.
use sflow.Common.{
  ℕ, suc, ◌+◌, ◌%◌, ◌^◌, ◌<◌, ◌≡◌, refl, sym, ap, ◌∙◌, subst, ok-injective, List, [], ◌∷◌, ◌++◌,
  arith, length, length-append, ok, append_assoc, append-nil,
}
use sflow.Common.Text.{codes}
use sflow.Memory.Endian.{Endian, htonl, be_bytes, image-htonl, htonl-htonl}
use sflow.Memory.Layout.{struct_image, field_image}
use sflow.DataList.{Node, DataList, check_data, node_create, create, append}
use sflow.DataList.Laws.{Holds, append-Holds}
use sflow.Protocol.Format.{set_data_source, set_data_format, set_data_format_lem}
use sflow.Protocol.FlowRecord.{Memory}
use sflow.Protocol.Counter.{Counter}
use sflow.Protocol.CounterLen.{counter_len}
use sflow.Protocol.CounterRecord.{
  CounterRecord, record_of, counter_record_pack, counter_record_fields,
}
use sflow.Protocol.CounterRecord.Bytes.{
  IsCounterRecord, counter_record_bytes, counter_record_pack-IsCounterRecord, format-lt,
}
use sflow.Protocol.CounterRecord.Data.{
  counter_bytes, enterprise, format, IsCounter, counter_len_lem,
}
use sflow.Protocol.CounterSample.{CounterSample, counter_sample_fields}
use sflow.Protocol.CounterSample.Bytes.{IsCounterSample, counter_sample_bytes}
use sflow.Protocol.CounterSample.Pack.{
  contents, counter_sample_pack, counter_sample_pack_lem, counter_sample_of, counted,
}
use sflow.Protocol.Sample.{Sample, counter}
use sflow.Protocol.Sample.Bytes.{IsSample, sample_data_bytes}
use sflow.Protocol.Sample.Pack.{sample_pack-IsSample}
use sflow.Protocol.Sequence.{All, bytes_of}
use sflow.Source.Types.{Source}
use sflow.Leaf.Records.{attach, finish}

-- A structure of sFlow's own enterprise, that says its size right, below 4 GB
pub record IsStandard (e : Endian) (d : Counter) : Type 0 where
  pub is_counter : IsCounter d
  pub ent : enterprise d ≡ 0
  pub small : length (counter_bytes e d) < 2 ^ 32

-- The record: format, length and structure
unfoldable pub record_wire : Endian → Counter → List ℕ
record_wire e d =
    be_bytes 4 (format d) ++ be_bytes 4 (length (counter_bytes e d)) ++ counter_bytes e d

-- The sample: sequence number, data source, number of records, and the records
unfoldable pub records_wire : Endian → Source → List Counter → List ℕ
records_wire e source ds =
    be_bytes 4 source.count
    ++ be_bytes 4 (set_data_source 0 source.id_type source.id)
    ++ be_bytes 4 (length ds)
    ++ bytes_of (record_wire e) ds

module _ (e : Endian) where
  abbrev packed : Counter → CounterRecord
  packed d = record {
    dfmt = htonl e (set_data_format 0 0 (format d));
    len = htonl e (length (counter_bytes e d) % 2 ^ 32);
    content = d;
  }

  pack-packed :
      (d : Counter) → IsStandard e d → counter_record_pack e d 0 (format d) ≡ ok (packed d)
  unfolding counter_record_pack
  pack-packed d h =
      ap (λ (n : ℕ). record_of e 0 (format d) d (counter_len n (format d) d)) (sym h.ent)
      ∙ ap (record_of e 0 (format d) d) (counter_len_lem e d h.is_counter)

  packed-IsCounterRecord : (d : Counter) → IsStandard e d → IsCounterRecord e (packed d)
  packed-IsCounterRecord d h =
      let (cr, e_cr, is_cr, same) = counter_record_pack-IsCounterRecord e d h.is_counter h.small in
      let at_zero : counter_record_pack e d 0 (format d) ≡ ok cr =
        ap (λ (n : ℕ). counter_record_pack e d n (format d)) (sym h.ent) ∙ e_cr in
      subst (IsCounterRecord e) (ok-injective (sym at_zero ∙ pack-packed d h)) is_cr

  packed-record_wire :
      (d : Counter) → IsStandard e d → counter_record_bytes e (packed d) ≡ record_wire e d
  unfolding record_wire counter_record_bytes counter_record_fields struct_image field_image
  packed-record_wire d h =
      let len : length (counter_bytes e d) % 2 ^ 32 ≡ length (counter_bytes e d) =
        omega (arith, h.small) in
      let fmt : set_data_format 0 0 (format d) ≡ format d =
        set_data_format_lem 0 (format d) ∙ omega (arith, format-lt e d) in
      rw (len, fmt) simp (image-htonl, append-nil, append_assoc)

  abbrev packed_all : List Counter → List CounterRecord
  packed_all [] = []
  packed_all (d ∷ ds) = packed d ∷ packed_all ds

  -- The list holds the records of the structures `ds`, in their order.
  pub record Gathers (l : DataList CounterRecord) (ds : List Counter) : Type 0 where
    pub nodes : List (Node CounterRecord)
    pub holds : Holds l nodes
    pub are : contents nodes ≡ packed_all ds
    pub count : length nodes ≡ length ds

  pub create-Gathers :
      (l : DataList CounterRecord) × (create CounterRecord (codes "dummy list") ≡ ok l)
      × Gathers l []
  unfolding create
  create-Gathers = (
    _,
    refl,
    record { nodes = []; holds = record { items = refl; count = refl }; are = refl; count = refl },
  )

  contents-append :
      {A : Type 0} (xs : List (Node A)) (x : Node A)
      → contents (xs ++ x ∷ []) ≡ contents xs ++ x.content ∷ []
  contents-append [] x = refl
  contents-append (y ∷ xs) x = ap (◌∷◌ y.content) (contents-append xs x)

  packed_all-append :
      (ds : List Counter) (d : Counter) → packed_all (ds ++ d ∷ []) ≡ packed_all ds ++ packed d ∷ []
  packed_all-append [] d = refl
  packed_all-append (c ∷ ds) d = ap (◌∷◌ (packed c)) (packed_all-append ds d)

  -- Attaching a structure puts its record behind the others.
  pub attach-Gathers :
      (l : DataList CounterRecord) (ds : List Counter) (d : Counter)
      → Gathers l ds
      → IsStandard e d
      → length ds + 1 < 2 ^ 32
      → (l' : DataList CounterRecord) × (attach e d (format d) l ≡ ok l')
        × Gathers l' (ds ++ d ∷ [])
  unfolding attach node_create
  attach-Gathers l ds d g h small =
      let node : Node CounterRecord = record {
        name = codes "dummy node";
        content = packed d;
        data_size = check_data;
      } in
      (
        append l node,
        rw (pack-packed d h) refl,
        record {
          nodes = g.nodes ++ node ∷ [];
          holds = append-Holds l g.nodes node g.holds (omega (arith, g.count));
          are =
              contents-append g.nodes node
              ∙ ap (λ (rs : List CounterRecord). rs ++ packed d ∷ []) g.are
              ∙ sym (packed_all-append ds d);
          count =
              omega (arith, length-append g.nodes (node ∷ []), length-append ds (d ∷ []), g.count);
        },
      )

  packed_all-record_wire :
      (ds : List Counter)
      → All (IsStandard e) ds
      → bytes_of (counter_record_bytes e) (packed_all ds) ≡ bytes_of (record_wire e) ds
  packed_all-record_wire [] h = refl
  packed_all-record_wire (d ∷ ds) (hd, hds) =
      rw (packed-record_wire d hd, packed_all-record_wire ds hds) refl

  packed_all-IsCounterRecord :
      (ds : List Counter) → All (IsStandard e) ds → All (IsCounterRecord e) (packed_all ds)
  packed_all-IsCounterRecord [] h = tt
  packed_all-IsCounterRecord (d ∷ ds) (hd, hds) =
      (packed-IsCounterRecord d hd, packed_all-IsCounterRecord ds hds)

  length-packed_all : (ds : List Counter) → length (packed_all ds) ≡ length ds
  length-packed_all [] = refl
  length-packed_all (d ∷ ds) = ap suc (length-packed_all ds)

  sample_wire :
      (ds : List Counter) (source : Source)
      → All (IsStandard e) ds
      → counter_sample_bytes e (counter_sample_of e source (length ds) (packed_all ds))
        ≡ records_wire e source ds
  unfolding counter_sample_bytes counter_sample_fields records_wire struct_image field_image
  sample_wire ds source h =
      rw (packed_all-record_wire ds h) simp (image-htonl, append-nil, append_assoc)

  -- The sample of a gathered list, if it is below 4 GB, is well formed, and on the wire it is its
  -- header and the records in their order.
  pub finish-IsSample :
      (mem : Memory) (l : DataList CounterRecord) (ds : List Counter) (source : Source)
      → Gathers l ds
      → All (IsStandard e) ds
      → length ds < 2 ^ 32
      → length (records_wire e source ds) < 2 ^ 32
      → (sp : Sample) × (finish e l source ≡ ok (sp, counted source))
        × IsSample e mem sp
        × (sample_data_bytes e mem sp.content ≡ records_wire e source ds)
  unfolding finish sample_data_bytes
  finish-IsSample mem l ds source g h few small =
      let cs : CounterSample = counter_sample_of e source (length ds) (packed_all ds) in
      let made : counter_sample_pack e l source ≡ ok (cs, counted source) =
        counter_sample_pack_lem e l g.nodes source g.holds
        ∙ ap (λ (n : ℕ). ok (counter_sample_of e source n (contents g.nodes), counted source))
            g.count
        ∙ ap
            (λ (rs : List CounterRecord).
              ok (counter_sample_of e source (length ds) rs, counted source))
            g.are in
      let is_cs : IsCounterSample e cs = record {
        count = htonl-htonl e (length ds) ∙ omega (arith, length-packed_all ds);
        records = packed_all-IsCounterRecord ds h;
      } in
      let wire : counter_sample_bytes e cs ≡ records_wire e source ds = sample_wire ds source h in
      let (sp, e_sp, is_sp, same) =
        sample_pack-IsSample e mem (counter cs) is_cs (omega (arith, ap length wire, small)) in
      (sp, rw (made, e_sp) refl, is_sp, rw same wire)
