-- ===== src/Leaf/Records/Size.antt =====
-- How many bytes a sample of any structures takes.
use sflow.Common.{
  ℕ, ◌+◌, ◌^◌, ◌<◌, ◌≡◌, refl, sym, ◌∙◌, ok-injective, List, [], ◌∷◌, ◌++◌, arith, length,
  length-append, ok,
}
use sflow.Memory.Endian.{Endian, be_bytes, length-be_bytes}
use sflow.Protocol.Format.{set_data_source}
use sflow.Protocol.Counter.{Counter}
use sflow.Protocol.CounterLen.{counter_len}
use sflow.Protocol.CounterRecord.Data.{
  counter_bytes, enterprise, format, IsCounter, counter_len_lem,
}
use sflow.Protocol.Sequence.{bytes_of, total}
use sflow.Source.Types.{Source}
use sflow.Leaf.Records.Laws.{IsStandard, record_wire, records_wire}

module _ (e : Endian) where
  -- A structure whose length follows from its format
  pub counter_len-IsStandard :
      (d : Counter) (k : ℕ)
      → IsCounter d
      → enterprise d ≡ 0
      → k < 2 ^ 32
      → counter_len (enterprise d) (format d) d ≡ ok k
      → IsStandard e d × (length (counter_bytes e d) ≡ k)
  counter_len-IsStandard d k is ent small len =
      let size : length (counter_bytes e d) ≡ k =
        ok-injective (sym (counter_len_lem e d is) ∙ len) in
      (record { is_counter = is; ent = ent; small = omega (arith, size) }, size)

  -- The bytes of one record, and those of a sample
  pub length-record_wire : (d : Counter) → length (record_wire e d) ≡ 8 + length (counter_bytes e d)
  unfolding record_wire
  length-record_wire d = omega (
    arith,
    length-append (be_bytes 4 (format d) ++ be_bytes 4 (length (counter_bytes e d)))
        (counter_bytes e d),
    length-append (be_bytes 4 (format d)) (be_bytes 4 (length (counter_bytes e d))),
    length-be_bytes 4 (format d),
    length-be_bytes 4 (length (counter_bytes e d)),
  )

  pub length-records_wire :
      (source : Source) (ds : List Counter)
      → length (records_wire e source ds) ≡ 12 + total (λ d. 8 + length (counter_bytes e d)) ds
  unfolding records_wire
  length-records_wire source ds =
      let dsrc = set_data_source 0 source.id_type source.id in
      omega (
        arith,
        length-append (be_bytes 4 source.count ++ be_bytes 4 dsrc ++ be_bytes 4 (length ds))
            (bytes_of (record_wire e) ds),
        length-append (be_bytes 4 source.count ++ be_bytes 4 dsrc) (be_bytes 4 (length ds)),
        length-append (be_bytes 4 source.count) (be_bytes 4 dsrc),
        length-be_bytes 4 source.count,
        length-be_bytes 4 dsrc,
        length-be_bytes 4 (length ds),
        each ds,
      )
    where
      each :
          (xs : List Counter)
          → length (bytes_of (record_wire e) xs) ≡ total (λ d. 8 + length (counter_bytes e d)) xs
      each [] = refl
      each (x ∷ xs) = omega (
        arith,
        each xs,
        length-record_wire x,
        length-append (record_wire e x) (bytes_of (record_wire e) xs),
      )
