-- ===== src/Source/Text/Laws.antt =====
-- What remove_space does, and for which strings it ends.
use sflow.Common.{
  ℕ, zero, suc, ◌≤◌, ◌≡◌, refl, arith, false, Bool-cases, inl, inr, List, [], ◌∷◌, ◌++◌, length,
  ◌==◌, if◌then◌else◌, ok, fault, out_of_fuel,
}
use sflow.Source.Text.{squeeze, remove_space}

-- No character of the string is a tab.
abbrev pub NoTab : List ℕ → Type 0
NoTab [] = Unit {0}
NoTab (c ∷ cs) = ((c == 9) ≡ false) × NoTab cs

-- The characters that are not a blank
abbrev pub without_blanks : List ℕ → List ℕ
without_blanks [] = []
without_blanks (c ∷ cs) = if c == 32 then without_blanks cs else c ∷ without_blanks cs

squeeze_ends :
    (fuel : ℕ) (s : List ℕ) → NoTab s → length s ≤ fuel → squeeze fuel s ≡ ok (without_blanks s)
unfolding squeeze
squeeze_ends fuel [] h enough = refl
squeeze_ends zero (c ∷ cs) h enough = absurd (omega arith)
squeeze_ends (suc fuel) (c ∷ cs) (hc, h) enough =
    rw (hc, squeeze_ends fuel cs h (omega arith))
      (elim (Bool-cases (c == 32)) [ inl t ↦ rw t refl | inr t ↦ rw t refl ])

-- On a string without a tab remove_space ends and leaves the characters that are not blanks, in
-- their order.
pub remove_space_lem : (s : List ℕ) → NoTab s → remove_space s ≡ ok (without_blanks s)
unfolding remove_space
remove_space_lem s h = squeeze_ends (length s) s h (omega arith)

-- The loop of remove_space does not end on a string with a tab: no number of rounds is enough.
pub squeeze_hangs :
    (fuel : ℕ) (before behind : List ℕ) → squeeze fuel (before ++ 9 ∷ behind) ≡ fault out_of_fuel
unfolding squeeze
squeeze_hangs zero [] behind = refl
squeeze_hangs zero (c ∷ before) behind = refl
squeeze_hangs (suc fuel) [] behind = squeeze_hangs fuel [] behind
squeeze_hangs (suc fuel) (c ∷ before) behind =
    rw (squeeze_hangs fuel (c ∷ before) behind, squeeze_hangs fuel before behind)
      (elim (Bool-cases (c == 9)) [
        | inl t ↦ rw t refl
        | inr t ↦ rw t (elim (Bool-cases (c == 32)) [ inl u ↦ rw u refl | inr u ↦ rw u refl ])
      ])
