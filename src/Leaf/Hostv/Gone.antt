-- ===== src/Leaf/Hostv/Gone.antt =====
-- A zone that is gone when it is sampled: the structures that are then NULL.
use sflow.Common.{
  ℕ, ◌+◌, ◌%◌, ◌^◌, ◌<◌, ◌≤◌, ◌≡◌, refl, ◌∙◌, List, none, arith, length, ok, fault, bad_cast,
}
use sflow.Memory.Endian.{Endian, htonl, htonl-htonl}
use sflow.Memory.Layout.{struct_image, struct_size, field_size, length-struct_image}
use sflow.Memory.Buffer.{memcpy-Writes}
use sflow.Protocol.Format.{set_data_format, data_format_round_trip}
use sflow.Protocol.Counter.{Counter, null, as_virt_cpu, as_virt_memory}
use sflow.Protocol.CounterLen.{counter_len}
use sflow.Protocol.CounterRecord.{
  CounterRecord, counter_record_pack, counter_record_fields, counter_data_flat, counter_record_flat,
}
use sflow.Leaf.Hostv.Packs.{ZoneSystem, virt_cpu_pack, virt_memory_pack}
use sflow.Leaf.Hostv.Zones.{ZoneCache}

module _ (e : Endian) where
  abbrev null_record : ℕ → ℕ → CounterRecord
  null_record fmt len = record {
    dfmt = htonl e (set_data_format 0 0 fmt);
    len = len;
    content = null;
  }

  length-header : (cr : CounterRecord) → length (struct_image e (counter_record_fields cr)) ≡ 8
  unfolding counter_record_fields struct_size field_size
  length-header cr = length-struct_image e (counter_record_fields cr)

  -- Flattening such a record reads through NULL, wherever it is written.
  flat-null :
      (fmt len at : ℕ) (buf : List ℕ)
      → fmt < 2 ^ 20
      → ((b : List ℕ) → counter_data_flat e 0 fmt (at + 8) null b ≡ fault bad_cast)
      → at + 8 ≤ length buf
      → counter_record_flat e at (null_record fmt len) buf ≡ fault bad_cast
  unfolding counter_record_flat
  flat-null fmt len at buf small bad room =
      let (ent, f, fits) = data_format_round_trip 0 fmt (omega arith) small in
      let back = htonl-htonl e (set_data_format 0 0 fmt) ∙ whole (set_data_format 0 0 fmt) fits in
      let cr = null_record fmt len in
      let written =
        memcpy-Writes at (struct_image e (counter_record_fields cr)) buf
          (omega (arith, length-header cr)) in
      rw (written, back, ent, f, bad _) refl
    where
      whole : (v : ℕ) → v < 2 ^ 32 → v % 2 ^ 32 ≡ v
      whole v h = omega arith

  module _ (zs : ZoneSystem) (name : List ℕ) (zone_id : ℕ) (cache : ZoneCache) where
    -- The record of a structure is packed, and flattening it at `at` reads through NULL.
    abbrev FlatFaults : ℕ → List ℕ → ℕ → Counter → Type 0
    FlatFaults at buf fmt d =
        (cr : CounterRecord) × (counter_record_pack e d 0 fmt ≡ ok cr)
        × (counter_record_flat e at cr buf ≡ fault bad_cast)

    -- Where zone_getattr fails for the status and the cap of the memory, because the zone is gone,
    -- the processor and the memory counters are NULL; they are packed all the same, and flattening
    -- either record into a buffer that has room for its head reads through NULL.
    pub virt_packs-gone :
        (at : ℕ) (buf : List ℕ)
        → (zs.attributes zone_id).status ≡ none
        → (zs.attributes zone_id).phys_mcap ≡ none
        → at + 8 ≤ length buf
        → (d : Counter) × (virt_cpu_pack e zs name zone_id cache ≡ ok (d, cache))
          × (virt_memory_pack e zs name zone_id cache ≡ ok (d, cache))
          × FlatFaults at buf 2101 d
          × FlatFaults at buf 2102 d
    unfolding virt_cpu_pack virt_memory_pack counter_record_pack counter_len counter_data_flat
        as_virt_cpu as_virt_memory
    virt_packs-gone at buf no_status no_cap room = (
      null,
      rw (no_status, virt_cpu_pack) refl,
      rw (no_cap, virt_memory_pack) refl,
      (
        null_record 2101 (htonl e 16),
        refl,
        flat-null 2101 (htonl e 16) at buf (omega arith) (λ b. refl) room,
      ),
      (
        null_record 2102 (htonl e 16),
        refl,
        flat-null 2102 (htonl e 16) at buf (omega arith) (λ b. refl) room,
      ),
    )
