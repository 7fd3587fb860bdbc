-- ===== src/Protocol/CounterSample/Pack.antt =====
-- sflow_counter_sample_pack, whose loop reads the bound once.
use sflow.Common.{
  ℕ, zero, suc, ◌+◌, ◌≡◌, sym, ap, ◌∙◌, List, [], ◌∷◌, ◌++◌, append_assoc, append-nil, length,
  Outcome, ok, ◌>>=◌, ◌>>◌,
}
use sflow.Memory.Endian.{Endian, htonl}
use sflow.DataList.{Node, DataList, read, free}
use sflow.DataList.Laws.{Holds, read-Holds, free-Holds}
use sflow.Protocol.Format.{set_data_source}
use sflow.Protocol.CounterRecord.{CounterRecord}
use sflow.Protocol.CounterSample.{CounterSample}
use sflow.Source.Types.{Source}

-- The loop of sflow_counter_sample_pack and of sflow_datagram_pack, with the rounds left and the
-- pointers stored so far.
unfoldable pub take_all : {A : Type 0} → ℕ → DataList A → List A → Outcome (DataList A × List A)
take_all zero l taken = ok (l, taken)
take_all (suc n) l taken = do (node, rest) ← read l; take_all n rest (taken ++ node.content ∷ [])

abbrev pub contents : {A : Type 0} → List (Node A) → List A
contents [] = []
contents (x ∷ xs) = x.content ∷ contents xs

-- It empties the list and keeps the order.
pub take_all_lem :
    {A : Type 0} (xs : List (Node A)) (l : DataList A) (taken : List A)
    → Holds l xs
    → (l' : DataList A) × (take_all (length xs) l taken ≡ ok (l', taken ++ contents xs))
      × Holds l' []
unfolding take_all
take_all_lem [] l taken h = (l, ap (λ ys. ok (l, ys)) (sym (append-nil taken)), h)
take_all_lem (x ∷ xs) l taken h =
    let (l', e, h') = read-Holds l xs x h in
    let (l'', e', h'') = take_all_lem xs l' (taken ++ x.content ∷ []) h' in
    (
      l'',
      rw e (e' ∙ ap (λ ys. ok (l'', ys)) (append_assoc taken (x.content ∷ []) (contents xs))),
      h'',
    )

abbrev pub counter_sample_of : Endian → Source → ℕ → List CounterRecord → CounterSample
counter_sample_of e src count records = record {
  seq_no = htonl e src.count;
  dsrc = htonl e (set_data_source 0 src.id_type src.id);
  count = htonl e count;
  records = records;
}

-- `ss_count` of the source counts its samples.
abbrev pub counted : Source → Source
counted src = record src { count = src.count + 1 }

unfoldable pub counter_sample_pack :
    Endian → DataList CounterRecord → Source → Outcome (CounterSample × Source)
counter_sample_pack e record_list src = do
  (rest, records) ← take_all record_list.count record_list []
  free rest
  ok (counter_sample_of e src record_list.count records, counted src)

-- For any list of records sflow_counter_sample_pack succeeds with a sample of all of them in their
-- order, numbered with the source's count, and the source counts one sample more.
pub counter_sample_pack_lem :
    (e : Endian) (l : DataList CounterRecord) (xs : List (Node CounterRecord)) (src : Source)
    → Holds l xs
    → counter_sample_pack e l src
      ≡ ok (counter_sample_of e src (length xs) (contents xs), counted src)
unfolding counter_sample_pack
counter_sample_pack_lem e l xs src h =
    let (l', et, h') = take_all_lem xs l [] h in
    rw (ap (λ (n : ℕ). take_all n l []) h.count ∙ et, free-Holds l' [] h')
      (ap (λ (n : ℕ). ok (counter_sample_of e src n (contents xs), counted src)) h.count)
