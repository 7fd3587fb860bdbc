-- ===== src/Examples/Store.antt =====
-- The containers and the byte swap at concrete inputs.
use sflow.Common.{ℕ, ◌≤◌, ◌<◌, ◌≡◌, refl, inl, arith, [], ◌∷◌, ◌==◌, if◌then◌else◌, ok}
use sflow.Memory.Endian.{little, image, be_bytes}
use sflow.Util.Hyper.{hton_h_call, detect, hton_h_call_lem}
use sflow.ExpandingArray.{ExpandingArray, pointer, set_at}
use sflow.ExpandingArray.Laws.{IsArray, lookup, set_at_lem}
use sflow.DataList.{DataList}
use sflow.Protocol.Sample.{Sample}
use sflow.Examples.Data.{busy_sender}

-- Two cells, of which the second was set.
abbrev sources : ExpandingArray
sources = record { capacity = 2; cells = pointer 0 ∷ pointer 4096 ∷ [] }

sources-IsArray : IsArray sources
sources-IsArray = record {
  positive = omega arith;
  bounded = omega arith;
  sized = refl;
  initialised = tt;
}

set_at_lem_example :
    (arr' : ExpandingArray) × (set_at sources 9 8192 ≡ ok arr')
    × IsArray arr'
    × (9 < arr'.capacity)
    × (2 ≤ arr'.capacity)
    × ((j : ℕ) → lookup arr' j ≡ (if j == 9 then 8192 else lookup sources j))
set_at_lem_example = set_at_lem sources 9 8192 sources-IsArray (omega arith)

abbrev samples : DataList Sample
samples = busy_sender.buffered

hton_h_call_lem_example :
    (image little 8 (hton_h_call little 0 1000000000).1 ≡ be_bytes 8 1000000000)
    × ((hton_h_call little 0 1000000000).0 ≡ detect little)
hton_h_call_lem_example = hton_h_call_lem little 0 1000000000 (inl refl)
