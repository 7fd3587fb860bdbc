-- ===== src/Protocol/Format.antt =====
-- The field macros of sflow/sflow_protocol_branches.h: an enterprise number of 12 bits and a
-- format of 20 bits in one word, and a source type of 8 bits and an index of 24 bits in another.
use Prim.Native.Nat.{bit_and, bit_or}
use sflow.Common.{ℕ, ◌+◌, ◌*◌, ◌/◌, ◌%◌, ◌^◌, ◌<◌, ◌≡◌, arith}
use sflow.Common.Bits.{power, ones, bit_or_disjoint, bit_and-ones, zero-bit_or}

-- SFLOW_SET_DATAFORMAT(sdf, ent, fmt)
unfoldable pub set_data_format : ℕ → ℕ → ℕ → ℕ
set_data_format sdf ent fmt = bit_or (bit_or sdf (ent * 2 ^ 20 % 2 ^ 32)) (bit_and fmt 0x000F_FFFF)

-- SFLOW_GET_DATA_ENT(sdf)
unfoldable pub get_data_ent : ℕ → ℕ
get_data_ent sdf = sdf / 2 ^ 20

-- SFLOW_GET_DATA_FMT(sdf)
unfoldable pub get_data_fmt : ℕ → ℕ
get_data_fmt sdf = bit_and sdf 0x000F_FFFF

-- SFLOW_SET_DATASOURCE(sds, typ, val)
unfoldable pub set_data_source : ℕ → ℕ → ℕ → ℕ
set_data_source sds typ val = bit_or (bit_or sds (typ * 2 ^ 24 % 2 ^ 32)) (bit_and val 0x00FF_FFFF)

low20 : (x : ℕ) → bit_and x 0x000F_FFFF ≡ x % 2 ^ 20
unfolding ones power
low20 x = bit_and-ones 20 x

low24 : (x : ℕ) → bit_and x 0x00FF_FFFF ≡ x % 2 ^ 24
unfolding ones power
low24 x = bit_and-ones 24 x

join20 : (a b : ℕ) → b < 2 ^ 20 → bit_or (a * 2 ^ 20) b ≡ a * 2 ^ 20 + b
unfolding power
join20 a b h = bit_or_disjoint 20 a b h

join24 : (a b : ℕ) → b < 2 ^ 24 → bit_or (a * 2 ^ 24) b ≡ a * 2 ^ 24 + b
unfolding power
join24 a b h = bit_or_disjoint 24 a b h

-- In a cleared word the macro sets the sum of the two fields.
pub set_data_format_lem :
    (ent fmt : ℕ) → set_data_format 0 ent fmt ≡ ent % 2 ^ 12 * 2 ^ 20 + fmt % 2 ^ 20
unfolding set_data_format
set_data_format_lem ent fmt =
    rw (low20, zero-bit_or (ent * 2 ^ 20 % 2 ^ 32), shifted)
      (join20 (ent % 2 ^ 12) (fmt % 2 ^ 20) (omega arith))
  where
    shifted : ent * 2 ^ 20 % 2 ^ 32 ≡ ent % 2 ^ 12 * 2 ^ 20
    shifted = omega arith

pub set_data_source_lem :
    (typ val : ℕ) → set_data_source 0 typ val ≡ typ % 2 ^ 8 * 2 ^ 24 + val % 2 ^ 24
unfolding set_data_source
set_data_source_lem typ val =
    rw (low24, zero-bit_or (typ * 2 ^ 24 % 2 ^ 32), shifted)
      (join24 (typ % 2 ^ 8) (val % 2 ^ 24) (omega arith))
  where
    shifted : typ * 2 ^ 24 % 2 ^ 32 ≡ typ % 2 ^ 8 * 2 ^ 24
    shifted = omega arith

-- An enterprise below 2 ^ 12 and a format below 2 ^ 20 that are set in a cleared word are read
-- back from it, and the word has 32 bits.
pub data_format_round_trip :
    (ent fmt : ℕ)
    → ent < 2 ^ 12
    → fmt < 2 ^ 20
    → (get_data_ent (set_data_format 0 ent fmt) ≡ ent)
      × (get_data_fmt (set_data_format 0 ent fmt) ≡ fmt)
      × (set_data_format 0 ent fmt < 2 ^ 32)
unfolding get_data_ent get_data_fmt
data_format_round_trip ent fmt he hf =
    rw (low20, set_data_format_lem) (omega arith, omega arith, omega arith)
