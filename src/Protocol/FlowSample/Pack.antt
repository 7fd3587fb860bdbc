-- ===== src/Protocol/FlowSample/Pack.antt =====
-- sflow_flow_sample_pack: the list of records becomes the array behind the sample.
use sflow.Common.{
  ℕ, zero, suc, ◌+◌, ◌≤◌, ◌≡◌, refl, ap, ◌∙◌, List, [], ◌∷◌, ◌++◌, arith, length, ltb, ◌==◌,
  if◌then◌else◌, Bool, true, false, inl, inr, Bool-cases, Outcome, ok, fault, assert_failed, ◌>>=◌,
  ◌>>◌,
}
use sflow.Memory.Endian.{Endian, htonl}
use sflow.DataList.{Node, DataList, free}
use sflow.DataList.Laws.{Holds, read-Holds, free-Holds}
use sflow.Protocol.Format.{set_data_source}
use sflow.Protocol.FlowRecord.{FlowRecord}
use sflow.Protocol.FlowSample.{FlowSample, unknown, take_records}
use sflow.Source.Types.{
  Source, Interrupt, interrupt, FlowsampleData, flowsample_data, as_interrupt, as_flowsample_data,
}

abbrev pub sample_of :
    Endian → Source → Interrupt → FlowsampleData → ℕ → List FlowRecord → FlowSample
sample_of e source i ssd count records = record {
  seq_no = htonl e source.count;
  dsrc = htonl e (set_data_source 0 source.id_type source.id);
  rate = htonl e i.rate;
  pool = htonl e ssd.pool;
  drops = htonl e ssd.drops;
  input_if = unknown e;
  output_if = unknown e;
  count = htonl e count;
  records = records;
}

-- The loop makes no more rounds than the list has elements.
unfoldable pub flow_sample_pack : Endian → DataList FlowRecord → Source → Outcome FlowSample
flow_sample_pack e record_list source = do
  i ← as_interrupt source.kind
  ssd ← as_flowsample_data source.specific
  (rest, records) ← take_records record_list.count 0 record_list []
  free rest
  ok (sample_of e source i ssd record_list.count records)

count_is :
    (l : DataList FlowRecord) (xs : List (Node FlowRecord)) (i : ℕ) (b : Bool)
    → Holds l xs
    → ltb i (length xs) ≡ b
    → ltb i l.count ≡ b
count_is l xs i b h e = ap (ltb i) h.count ∙ e

-- Once two elements are due, the loop leaves one behind at least: the bound falls while the index
-- rises.
take_records_leaves :
    (fuel i : ℕ) (l : DataList FlowRecord) (xs : List (Node FlowRecord)) (taken : List FlowRecord)
    → Holds l xs
    → length xs ≤ fuel + i
    → 2 ≤ i + length xs
    → 1 ≤ length xs
    → (l' : DataList FlowRecord) × (records : List FlowRecord) × (ys : List (Node FlowRecord))
      × (take_records fuel i l taken ≡ ok (l', records))
      × Holds l' ys
      × (1 ≤ length ys)
unfolding take_records
take_records_leaves zero i l xs taken h enough two one =
    (l, taken, xs, rw (count_is l xs i false h (ground arith)), h, one)
take_records_leaves (suc fuel) i l [] taken h enough two one = absurd (omega arith)
take_records_leaves (suc fuel) i l (x ∷ xs) taken h enough two one =
    elim (Bool-cases (ltb i (suc (length xs)))) [
      | inl more ↦
          let (l', e, h') = read-Holds l xs x h in
          let (l'', records, ys, e', h'', left) =
            take_records_leaves fuel (i + 1) l' xs (taken ++ x.content ∷ []) h' (omega arith)
              (omega arith) (ground arith) in
          (l'', records, ys, rw (count_is l (x ∷ xs) i true h more, e) e', h'', left)
      | inr done ↦ (l, taken, x ∷ xs, rw (count_is l (x ∷ xs) i false h done), h, one)
    ]

module _ (e : Endian) (source : Source) (i : Interrupt) (ssd : FlowsampleData)
    (hi : source.kind ≡ interrupt i) (hs : source.specific ≡ flowsample_data ssd) where
  pack_from :
      (l rest : DataList FlowRecord) (n : ℕ) (ys : List (Node FlowRecord))
      (records : List FlowRecord)
      → l.count ≡ n
      → take_records n 0 l [] ≡ ok (rest, records)
      → Holds rest ys
      → flow_sample_pack e l source
        ≡ (if length ys == 0 then ok (sample_of e source i ssd n records) else fault assert_failed)
  unfolding flow_sample_pack
  pack_from l rest n ys records hn et h =
      rw (hi, hs, ap (λ (k : ℕ). take_records k 0 l []) hn ∙ et, free-Holds rest ys h)
        (elim (Bool-cases (length ys == 0)) [
          | inl t ↦ rw t (ap (λ (k : ℕ). ok (sample_of e source i ssd k records)) hn)
          | inr t ↦ rw t
        ])

  take_one :
      (l : DataList FlowRecord) (x : Node FlowRecord)
      → Holds l (x ∷ [])
      → (l' : DataList FlowRecord) × (take_records 1 0 l [] ≡ ok (l', x.content ∷ [])) × Holds l' []
  unfolding take_records
  take_one l x h =
      let (l', er, h') = read-Holds l [] x h in
      (
        l',
        rw (count_is l (x ∷ []) 0 true h refl, er) (rw (count_is l' [] (0 + 1) false h' refl)),
        h',
      )

  -- For an interrupt source with flow data, sflow_flow_sample_pack on a list of one record
  -- succeeds with the sample of that record.
  pub flow_sample_pack_one :
      (l : DataList FlowRecord) (x : Node FlowRecord)
      → Holds l (x ∷ [])
      → flow_sample_pack e l source ≡ ok (sample_of e source i ssd 1 (x.content ∷ []))
  flow_sample_pack_one l x h =
      let (l', et, h') = take_one l x h in pack_from l l' 1 [] (x.content ∷ []) h.count et h'

  -- For an interrupt source with flow data, sflow_flow_sample_pack on a list of two records or
  -- more fails the assertion of sflow_data_list_free.
  pub flow_sample_pack_aborts :
      (l : DataList FlowRecord) (xs : List (Node FlowRecord))
      → Holds l xs
      → 2 ≤ length xs
      → flow_sample_pack e l source ≡ fault assert_failed
  flow_sample_pack_aborts l xs h two =
      let (l', records, ys, et, h', left) =
        take_records_leaves (length xs) 0 l xs [] h (omega arith) (omega arith) (omega arith) in
      pack_from l l' (length xs) ys records h.count et h' ∙ ground arith
