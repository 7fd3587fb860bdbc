-- ===== src/Source/Text.antt =====
-- The strings of sflow/sflow_source.c: remove_space and sflow_find_attribute.
pub mod Laws
use sflow.Common.{
  ℕ, zero, suc, ◌+◌, Bool, true, false, ◌&&◌, List, [], ◌∷◌, length, ltb, ◌==◌, if◌then◌else◌, drop,
  Outcome, ok, fault, ◌>>=◌, out_of_fuel, out_of_bounds,
}

-- while (prop[index1] != '\0') ... on the characters from `index1` on, with the rounds allowed; the
-- result is what is stored from `index2` on. A tab ends the test before `index1++` is reached.
unfoldable pub squeeze : ℕ → List ℕ → Outcome (List ℕ)
squeeze fuel [] = ok []
squeeze zero (c ∷ cs) = fault out_of_fuel
squeeze (suc fuel) (c ∷ cs) =
    let stay = squeeze fuel (c ∷ cs) in
    let rest = squeeze fuel cs in
    if c == 9 then stay else if c == 32 then rest else (do kept ← rest; ok (c ∷ kept))

-- A round for each character is enough if any number is.
unfoldable pub remove_space : List ℕ → Outcome (List ℕ)
remove_space prop = squeeze (length prop) prop

-- strncmp(s, target, strlen(target)) == 0
abbrev pub starts_with : List ℕ → List ℕ → Bool
starts_with s [] = true
starts_with [] (t ∷ target) = false
starts_with (c ∷ s) (t ∷ target) = c == t && starts_with s target

-- Up to the next comma, ',' being 44, and from there on
abbrev pub before_comma : List ℕ → List ℕ
before_comma [] = []
before_comma (c ∷ s) = if c == 44 then [] else c ∷ before_comma s

abbrev pub from_comma : List ℕ → List ℕ
from_comma [] = []
from_comma (c ∷ s) = if c == 44 then c ∷ s else from_comma s

abbrev pub blanks : List ℕ → List ℕ
blanks [] = []
blanks (c ∷ s) = 32 ∷ blanks s

abbrev pub append_text : List ℕ → List ℕ → List ℕ
append_text [] s = s
append_text (c ∷ r) s = c ∷ append_text r s

-- The loop of sflow_find_attribute: at the start, and behind every comma, the target is tried. The
-- result is the value and the string with the value blanked.
unfoldable pub scan : List ℕ → Bool → List ℕ → List ℕ × List ℕ
scan target at_start [] = ([], [])
scan target at_start (c ∷ s) =
    let (value, rest) = scan target (c == 44) s in
    if at_start && starts_with (c ∷ s) target
    then (
      before_comma (drop (length target) (c ∷ s)),
      append_text target (
          append_text (blanks (before_comma (drop (length target) (c ∷ s))))
            (from_comma (drop (length target) (c ∷ s)))),
    )
    else (value, c ∷ rest)

-- SF_ATTR_LEN
abbrev pub attr_len : ℕ
attr_len = 32

-- The value has to fit in the buffer with the 0 that its readers look for.
unfoldable pub find_attribute : List ℕ → List ℕ → Outcome (List ℕ × List ℕ)
unfolding remove_space
find_attribute prop target = do
  let (value, blanked) = scan target true prop
  found ← (if ltb (length value) attr_len then ok value else fault out_of_bounds)
  prop' ← remove_space blanked
  ok (found, prop')
