-- ===== src/Protocol/Datagram/Bytes.antt =====
-- The datagram on the wire: the buffer that is allocated is filled to its last byte, and no write
-- leaves it.
use sflow.Common.{
  ℕ, ◌+◌, ◌^◌, ◌<◌, ◌≡◌, refl, sym, ap, ◌∙◌, List, [], ◌∷◌, ◌++◌, arith, length, length-append,
  replicate, length-replicate, ok,
}
use sflow.Memory.Endian.{Endian, htonl}
use sflow.Memory.Layout.{
  char_array, struct_image, struct_size, field_size, length-struct_image, length-char_array,
}
use sflow.Memory.Buffer.{Buffer, Writes, write_all}
use sflow.Memory.Flat.{behind-Writes}
use sflow.Protocol.FlowRecord.{Memory}
use sflow.Protocol.Sample.{Sample, sample_fields, sample_flat}
use sflow.Protocol.Sample.Bytes.{IsSample, sample_bytes, sample_data_bytes, sample-Writes}
use sflow.Protocol.Sequence.{All, bytes_of, FlatWrites, flat_each-Writes, total, sum_each_lem}
use sflow.Protocol.Datagram.{
  Datagram, version_fields, agent_fields, sample_size, datagram_size, datagram_write, datagram_flat,
}

unfoldable pub datagram_bytes : Endian → Memory → Datagram → List ℕ
datagram_bytes e mem dg =
    struct_image e (version_fields dg)
    ++ (char_array 4 dg.v4
        ++ (struct_image e (agent_fields dg) ++ bytes_of (sample_bytes e mem) dg.samples))

pub record IsDatagram (e : Endian) (mem : Memory) (dg : Datagram) : Type 0 where
  pub count : htonl e dg.sample_num ≡ length dg.samples
  pub samples : All (IsSample e mem) dg.samples

module _ (e : Endian) (mem : Memory) where
  all-Writes :
      (xs : List Sample)
      → All (IsSample e mem) xs
      → All (FlatWrites (sample_flat e mem) (sample_bytes e mem)) xs
  all-Writes [] h = tt
  all-Writes (x ∷ xs) (hx, hxs) = ((λ at. sample-Writes e mem x at hx), all-Writes xs hxs)

  pub samples_total :
      (xs : List Sample)
      → All (IsSample e mem) xs
      → total (sample_size e) xs ≡ length (bytes_of (sample_bytes e mem) xs)
  unfolding sample_bytes sample_fields struct_size field_size
  samples_total [] h = refl
  samples_total (x ∷ xs) (hx, hxs) = omega (
    arith,
    samples_total xs hxs,
    hx.len,
    length-append (sample_bytes e mem x) (bytes_of (sample_bytes e mem) xs),
    length-append (struct_image e (sample_fields x)) (sample_data_bytes e mem x.content),
    length-struct_image e (sample_fields x),
  )

  datagram-Writes :
      (dg : Datagram)
      → IsDatagram e mem dg
      → Writes 0
          (datagram_bytes e mem dg)
          (length (bytes_of (sample_bytes e mem) dg.samples))
          (datagram_write e mem dg)
  unfolding datagram_write datagram_bytes version_fields agent_fields struct_size field_size
  datagram-Writes dg h =
      behind-Writes 0 8 (struct_image e (version_fields dg)) _ _ _
        (omega (arith, length-struct_image e (version_fields dg)))
        (behind-Writes 8 12 (char_array 4 dg.v4) _ _ _ (omega (arith, length-char_array 4 dg.v4)) (
          behind-Writes 12 28 (struct_image e (agent_fields dg)) _ _ _
            (omega (arith, length-struct_image e (agent_fields dg)))
            (rw h.count (
              flat_each-Writes (sample_flat e mem) (sample_bytes e mem) dg.samples 28
                (all-Writes dg.samples h.samples)))))

  length-datagram_bytes :
      (dg : Datagram)
      → length (datagram_bytes e mem dg) ≡ 28 + length (bytes_of (sample_bytes e mem) dg.samples)
  unfolding datagram_bytes version_fields agent_fields struct_size field_size
  length-datagram_bytes dg = omega (
    arith,
    length-append (struct_image e (version_fields dg)) (
        char_array 4 dg.v4
        ++ (struct_image e (agent_fields dg) ++ bytes_of (sample_bytes e mem) dg.samples)),
    length-append (char_array 4 dg.v4)
        (struct_image e (agent_fields dg) ++ bytes_of (sample_bytes e mem) dg.samples),
    length-append (struct_image e (agent_fields dg)) (bytes_of (sample_bytes e mem) dg.samples),
    length-struct_image e (version_fields dg),
    length-struct_image e (agent_fields dg),
    length-char_array 4 dg.v4,
  )

  datagram_size_lem :
      (dg : Datagram)
      → IsDatagram e mem dg
      → length (datagram_bytes e mem dg) < 2 ^ 32
      → datagram_size e dg ≡ ok (length (datagram_bytes e mem dg))
  unfolding datagram_size
  datagram_size_lem dg h small = rw h.count (
      sum_each_lem (sample_size e) dg.samples 28
        (omega (arith, length-datagram_bytes dg, samples_total dg.samples h.samples))
      ∙ ap ok (omega (arith, length-datagram_bytes dg, samples_total dg.samples h.samples)))

  -- A datagram whose number of samples is the stated one, all of them well formed, and that is
  -- below 4 GB, is flattened to its bytes: the size computed beforehand is theirs, no write
  -- leaves the buffer, and none of its bytes is left as it was allocated.
  pub datagram_flat-datagram_bytes :
      (dg : Datagram)
      → IsDatagram e mem dg
      → length (datagram_bytes e mem dg) < 2 ^ 32
      → datagram_flat e mem dg ≡ ok (length (datagram_bytes e mem dg), datagram_bytes e mem dg)
  unfolding datagram_flat
  datagram_flat-datagram_bytes dg h small =
      let bs = datagram_bytes e mem dg in
      let n = length bs in
      rw
        (
          datagram_size_lem dg h small,
          datagram-Writes dg h (replicate n 0) (omega (arith, length-replicate {0} {A = ℕ} n 0)),
        )
        (ap (λ (b : Buffer). ok (n, b))
          (write_all (replicate n 0) bs (sym (length-replicate {0} {A = ℕ} n 0))))
