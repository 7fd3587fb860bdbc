-- ===== src/Util/Kstat.antt =====
-- The kernel statistics of sflow/sflow_util.c: sflow_kstat_value, sflow_query_kstat,
-- sflow_get_one_kstat and sflow_get_link_stat_32 and _64. The kernel's side, libkstat, libdlpi and
-- dlparse_zonelinkname, is `Kernel`.
use sflow.Common.{
  ℕ, ◌%◌, ◌^◌, ◌==◌, Bool, true, false, ◌&&◌, List, [], ◌∷◌, Option, none, some, Outcome, ok, ◌>>=◌,
  or_fault, uninitialised, if◌then◌else◌,
}
use sflow.Common.Text.{codes}

-- KSTAT_DATA_UINT64, KSTAT_DATA_UINT32, KSTAT_DATA_STRING, and any other type
pub data KstatType : Type 0 where
  uint64 uint32 string other_type : KstatType

-- kstat_named_t
pub data Named : Type 0 where
  ui64 ui32 : ℕ → Named
  text : List ℕ → Named
  other_value : Named

-- What a type's `*val` is.
abbrev pub Stored : KstatType → Type 0
Stored uint64 = ℕ
Stored uint32 = ℕ
Stored string = List ℕ
Stored other_type = Unit {0}

-- kstat_t: whether kstat_read succeeds, and what kstat_data_lookup then finds
pub record Kstat : Type 0 where
  pub readable : Bool
  pub named : List ℕ → Option Named

-- kstat_open, kstat_lookup, dlparse_zonelinkname and dlpi_parselink
pub record Kernel : Type 0 where
  pub opens : Bool
  pub lookup : List ℕ → ℕ → List ℕ → Option Kstat
  pub parse_zone_link : List ℕ → Option (List ℕ × ℕ)
  pub parse_link : List ℕ → Option (List ℕ × ℕ)

-- The test of the type and the switch of sflow_kstat_value
unfoldable pub stored_value : (type : KstatType) → Named → Option (Stored type)
stored_value uint64 (ui64 n) = some n
stored_value uint32 (ui32 n) = some n
stored_value string (text s) = some s
stored_value _ _ = none

-- Below, `none` is the result -1, where nothing is stored in `*val`.
unfoldable pub kstat_value : Kstat → List ℕ → (type : KstatType) → Option (Stored type)
unfolding stored_value
kstat_value ksp name type = elim (ksp.named name) [ none ↦ none | some knp ↦ stored_value type knp ]

-- strcmp(s, t) == 0
abbrev pub str_eq : List ℕ → List ℕ → Bool
str_eq [] [] = true
str_eq [] (c ∷ t) = false
str_eq (c ∷ s) [] = false
str_eq (c ∷ s) (d ∷ t) = c == d && str_eq s t

-- strchr(s, c) != NULL
abbrev pub has_char : ℕ → List ℕ → Bool
has_char c [] = false
has_char c (d ∷ s) = if c == d then true else has_char c s

module _ (kernel : Kernel) where
  -- The lookup, '/' being 47
  unfoldable pub find_kstat : List ℕ → ℕ → List ℕ → Option Kstat
  find_kstat mod_name instance_no name =
      if str_eq mod_name (codes "link") && instance_no == 0 && has_char 47 name
      then elim (kernel.parse_zone_link name) [
        | none ↦ none
        | some (linkname, zid) ↦ kernel.lookup mod_name zid linkname
      ]
      else kernel.lookup mod_name instance_no name

  unfoldable pub query_kstat :
      List ℕ → ℕ → List ℕ → List ℕ → (type : KstatType) → Option (Stored type)
  unfolding find_kstat kstat_value
  query_kstat mod_name instance_no name stat type =
      if kernel.opens
      then elim (find_kstat mod_name instance_no name) [
        | none ↦ none
        | some ksp ↦ if ksp.readable then kstat_value ksp stat type else none
      ]
      else none

  unfoldable pub get_one_kstat : List ℕ → List ℕ → (type : KstatType) → Bool → Option (Stored type)
  unfolding query_kstat
  get_one_kstat name stat type islink =
      if islink
      then query_kstat (codes "link") 0 name stat type
      else elim (kernel.parse_link name) [
        | none ↦ none
        | some (mod_name, instance_no) ↦ query_kstat mod_name instance_no (codes "phys") stat type
      ]

  -- The result of sflow_get_one_kstat is not looked at: where it fails, the variable that is
  -- returned was never written.
  unfoldable pub link_stat_32 : List ℕ → List ℕ → Outcome ℕ
  unfolding get_one_kstat
  link_stat_32 name stat = do
    buffer ← or_fault (get_one_kstat name stat uint32 true) uninitialised
    ok (buffer % 2 ^ 32)

  unfoldable pub link_stat_64 : List ℕ → List ℕ → Outcome ℕ
  unfolding get_one_kstat
  link_stat_64 name stat = do
    buffer ← or_fault (get_one_kstat name stat uint64 true) uninitialised
    ok (buffer % 2 ^ 64)
