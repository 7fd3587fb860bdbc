-- ===== src/Leaf/Hostv/Descr.antt =====
-- The description of a zone, whose identifier is written behind as many bytes as the name has.
use sflow.Common.{
  ℕ, ◌+◌, ◌<◌, ◌≤◌, ◌≡◌, ◌↔◌, refl, List, [], ◌∷◌, ◌++◌, arith, length, ok, fault, out_of_bounds,
  Bool-cases, inl, inr, false, leb, le→leb,
}
use sflow.Memory.Endian.{Endian}
use sflow.Memory.Layout.{char_array}
use sflow.Util.Itoa.{itoa, itoa-nonempty}
use sflow.Protocol.Leaves.Host.{HostDescr}
use sflow.Leaf.Hostphy.Descr.{descr_pack}
use sflow.Leaf.Hostv.Packs.{ZoneSystem, overwrite, zone_name, zone_uuid, descr_pack_v, cpu_time}

module _ (e : Endian) (zs : ZoneSystem) (name : List ℕ) (zone_id : ℕ) where
  abbrev pub zone_descr_of : List ℕ → HostDescr
  zone_descr_of digits = record (descr_pack e zs.sys) {
    name = name;
    uuid = overwrite (char_array 16 (descr_pack e zs.sys).uuid) (length name) (digits ++ 0 ∷ []);
  }

  -- The description of a zone succeeds where the name, the digits of the zone's number and a 0
  -- take at most 16 characters.
  pub descr_pack_v-short :
      (digits : List ℕ)
      → itoa zone_id ≡ ok digits
      → length name + length digits < 16
      → descr_pack_v e zs name zone_id ≡ ok (zone_descr_of digits)
  unfolding descr_pack_v zone_name zone_uuid
  descr_pack_v-short digits is short =
      rw
        (
          le→leb (length name) 60 (omega arith),
          is,
          le→leb (length name + length digits + 1) 16 (omega arith),
        )
        refl

  -- For a zone whose name has 15 characters or more, the description writes behind the end of the
  -- identifier, or even of the name.
  pub descr_pack_v-long : 15 ≤ length name → descr_pack_v e zs name zone_id ≡ fault out_of_bounds
  unfolding descr_pack_v zone_name zone_uuid
  descr_pack_v-long long =
      let (digits, is, one) = itoa-nonempty zone_id in
      let over : leb (length name + length digits + 1) 16 ≡ false = ground (arith, one, long) in
      elim (Bool-cases (leb (length name) 60)) [
        | inl named ↦ rw (named, is, over) refl
        | inr named ↦ rw named refl
      ]

-- At full load the time that a zone used is the time since the boot exactly up to 429496 seconds,
-- which are less than five days: above, the product is cut to 32 bits.
pub cpu_time-exact : (up : ℕ) → (cpu_time up 10_000 ≡ up) ↔ (up ≤ 429_496)
cpu_time-exact up = (λ h. omega arith, λ h. omega arith)
