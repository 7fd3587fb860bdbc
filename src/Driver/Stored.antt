-- ===== src/Driver/Stored.antt =====
-- What is stored through a pointer to a source, and what other pointers still point to.
use sflow.Common.{
  ℕ, ◌≡◌, ◌≢◌, arith, refl, false, Bool-cases, inl, inr, List, [], ◌∷◌, ◌==◌, ok, fault,
  out_of_bounds,
}
use sflow.Source.Types.{Source}
use sflow.Driver.{load, store}

-- What is stored through a pointer is read back.
pub load-store :
    (address : ℕ) (old new : Source) (xs : List (ℕ × Source))
    → load address xs ≡ ok old
    → load address (store address new xs) ≡ ok new
unfolding load store
load-store address old new [] h = elim (no_source h) [ ]
  where
    no_source : {s : Source} → fault out_of_bounds ≡ ok s → ⊥
    no_source d = cc
load-store address old new ((a, src) ∷ xs) h = elim (Bool-cases (a == address)) [
  | inl t ↦ rw (t, t) refl
  | inr t ↦ rw (t, t) (load-store address old new xs (rw t at h))
]

-- Another pointer points to what it pointed to.
pub load-store_other :
    (address other : ℕ) (new : Source) (xs : List (ℕ × Source))
    → other ≢ address
    → load other (store address new xs) ≡ load other xs
unfolding load store
load-store_other address other new [] h = refl
load-store_other address other new ((a, src) ∷ xs) h =
    let rest = load-store_other address other new xs h in
    elim (Bool-cases (a == address)) [
      | inl t ↦ let differs : (a == other) ≡ false = ground (arith, t, h) in rw (t, differs) refl
      | inr t ↦ elim (Bool-cases (a == other)) [ inl u ↦ rw (t, u) refl | inr u ↦ rw (t, u) rest ]
    ]
