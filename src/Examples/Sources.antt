-- ===== src/Examples/Sources.antt =====
-- The registry of sources and its strings at concrete inputs.
use sflow.Common.{
  ℕ, suc, ◌≡◌, refl, inl, inr, arith, Bool, true, false, not, ◌&&◌, Bool-cases, List, [], ◌∷◌, ◌++◌,
  ◌∙◌, zero, ◌==◌, if◌then◌else◌, ◌≢◌, some, ok, fault, out_of_fuel,
}
use mathlib.Core.List.{reverse}
use sflow.Common.Text.{codes}
use sflow.Util.Itoa.{itoa, decimal, AreDigits, itoa-decimal}
use sflow.ExpandingArray.{pointer}
use sflow.ExpandingArray.Laws.{lookup}
use sflow.Source.Text.{squeeze, remove_space, scan, find_attribute}
use sflow.Source.Text.Laws.{NoTab, squeeze_hangs}
use sflow.Source.Types.{Source, flowsample}
use sflow.Source.Registry.{Registry, Spawned, add_source_type, stop_source}
use sflow.Source.Registry.Laws.{IsFdTable, IsTap, add_source_type-IsFdTable, stop_source-IsFdTable}
use sflow.Source.Remove.{type_of, one_type, filter_of, remove_source}
use sflow.Source.Remove.Laws.{left, remove_source-left}
use sflow.Source.Add.{World, make_add_one_source_type}
use sflow.Source.Add.Laws.{make_add_flowsample-IsFdTable}
use sflow.Leaf.Flowsample.Laws.{IsFlowsample}
use sflow.Examples.Data.{tap, flow_source}

abbrev pub has_no_tab : List ℕ → Bool
has_no_tab [] = true
has_no_tab (c ∷ s) = not (c == 9) && has_no_tab s

pub no_tab : (s : List ℕ) → has_no_tab s ≡ true → NoTab s
no_tab [] h = tt
no_tab (c ∷ s) h = elim (Bool-cases (c == 9)) [
  | inl t ↦ absurd (false≢true (first t ∙ h))
  | inr t ↦ (t, no_tab s (rest t ∙ h))
]
  where
    false≢true : false ≡ true → ⊥
    false≢true d = cc

    first : (c == 9) ≡ true → false ≡ has_no_tab (c ∷ s)
    first t = rw t refl

    rest : (c == 9) ≡ false → has_no_tab s ≡ has_no_tab (c ∷ s)
    rest t = rw t refl

squeeze_hangs_example : squeeze 1000 (codes "net0" ++ 9 ∷ codes "rate") ≡ fault out_of_fuel
squeeze_hangs_example = squeeze_hangs 1000 (codes "net0") (codes "rate")

itoa-decimal_example :
    (s : List ℕ) × (itoa 1024 ≡ ok (reverse s)) × AreDigits s × (decimal s ≡ 1024)
itoa-decimal_example = itoa-decimal 1024

-- A registry with one source, on descriptor 5.
abbrev pub table : Registry
table = record {
  maxfd = some 5;
  to_watch = λ fd. fd == 5;
  fd_sources = record {
    capacity = 8;
    cells =
        pointer 0
        ∷ pointer 0
        ∷ pointer 0
        ∷ pointer 0
        ∷ pointer 0
        ∷ pointer 4096
        ∷ pointer 0
        ∷ pointer 0
        ∷ [];
  };
  all_sources = (4096, flow_source) ∷ [];
}

watched : (fd : ℕ) → (fd == 5) ≡ not (lookup table.fd_sources fd == 0)
watched zero = refl
watched (suc zero) = refl
watched (suc (suc zero)) = refl
watched (suc (suc (suc zero))) = refl
watched (suc (suc (suc (suc zero)))) = refl
watched (suc (suc (suc (suc (suc zero))))) = refl
watched (suc (suc (suc (suc (suc (suc zero)))))) = refl
watched (suc (suc (suc (suc (suc (suc (suc zero))))))) = refl
watched (suc (suc (suc (suc (suc (suc (suc (suc fd)))))))) = ground arith

pub table-IsFdTable : IsFdTable table
table-IsFdTable = record {
  array = record { positive = omega arith; bounded = omega arith; sized = refl; initialised = tt };
  watched = watched;
  bound = λ fd. elim (Bool-cases (fd == 5)) [
    | inl t ↦ inr (5, refl, ground (arith, t))
    | inr t ↦ inl t
  ];
}

pub flow_source-IsTap : IsTap flow_source tap
flow_source-IsTap = record { source_type = refl; kind = refl; small = omega arith }

abbrev spawned : Spawned
spawned = record { err = 0; thread = 7 }

add_source_type-IsFdTable_example :
    (r' : Registry) × (add_source_type 8192 spawned flow_source table ≡ ok (0, r'))
    × IsFdTable r'
    × ((fd : ℕ) → r'.to_watch fd ≡ (if fd == 5 then true else table.to_watch fd))
    × (r'.all_sources ≡ (4096, flow_source) ∷ (8192, flow_source) ∷ [])
add_source_type-IsFdTable_example =
    add_source_type-IsFdTable 8192 spawned flow_source tap table table-IsFdTable flow_source-IsTap
      nonzero
  where
    nonzero : ◌≢◌ {A = ℕ} 8192 0
    nonzero e = omega arith

abbrev cancel : ℕ → ℕ
cancel = λ thread. 0

stop_source-IsFdTable_example :
    (r' : Registry) × (stop_source cancel flow_source table ≡ ok (0, r'))
    × IsFdTable r'
    × ((fd : ℕ) → r'.to_watch fd ≡ (if fd == 5 then false else table.to_watch fd))
    × (r'.all_sources ≡ table.all_sources)
stop_source-IsFdTable_example =
    stop_source-IsFdTable cancel flow_source tap table table-IsFdTable flow_source-IsTap

flow_filter : filter_of (codes "flow_sample") (type_of (codes "flow_sample")) ≡ one_type flowsample
unfolding filter_of type_of
flow_filter = refl

remove_source-left_example :
    (r' : Registry) × (remove_source cancel (codes "net0") (codes " flow_sample") table ≡ ok r')
    × (r'.all_sources
        ≡ left
            (filter_of (codes "flow_sample") (type_of (codes "flow_sample")))
            (codes "net0")
            table.all_sources)
    × IsFdTable r'
remove_source-left_example =
    remove_source-left cancel (codes "net0") (codes " flow_sample") table
      (no_tab (codes "net0") refl) (no_tab (codes " flow_sample") refl) (rw flow_filter refl)
      table-IsFdTable (inl (tap, flow_source-IsTap), tt)

abbrev world : World
world = record {
  link_id = λ name. some 2;
  fd_provider = λ link rate. some 6;
  zone_name = λ zone. some (codes "zone1");
  spawned = spawned;
  address = 8192;
}

rate-found : find_attribute (codes "rate=400") (codes "rate=") ≡ ok (codes "400", codes "rate=")
unfolding find_attribute scan remove_space squeeze
rate-found = refl

make_add_flowsample-IsFdTable_example :
    (r' : Registry) × (src : Source) × (make_add_one_source_type world
        (record { srcname = codes "net1"; propstr = codes "rate=400" })
        table
        flowsample
      ≡ ok (some 0, record { srcname = codes "net1"; propstr = codes "rate=" }, r'))
    × IsFdTable r'
    × (r'.all_sources ≡ table.all_sources ++ (8192, src) ∷ [])
    × IsFlowsample src
        (record { fd = 6; rate = 400 })
        (record { datalink = 2; pool = 0; drops = 0 })
make_add_flowsample-IsFdTable_example =
    make_add_flowsample-IsFdTable world
      (record { srcname = codes "net1"; propstr = codes "rate=400" }) table 2 6 (codes "400")
      (codes "rate=") table-IsFdTable (omega arith) refl rate-found refl (omega arith)
      (λ e. omega arith)
