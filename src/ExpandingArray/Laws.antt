-- ===== src/ExpandingArray/Laws.antt =====
-- The array refines a total map from indices to pointers, NULL where nothing was stored.
use sflow.Common.{
  ℕ, zero, suc, ◌+◌, ◌-◌, ◌^◌, ◌≤◌, ◌<◌, ◌≡◌, refl, sym, subst, ap, ◌∙◌, append-nil, inl, inr, List,
  [], ◌∷◌, ◌++◌, arith, leb, ltb, ◌==◌, if◌then◌else◌, length, get_elem?, set, replicate, some,
  Bool-cases, lt→ltb, length-append, length-replicate, length-set, ok, fault, assert_failed,
}
use sflow.Common.Bits.{power}
use sflow.ExpandingArray.{
  Cell, garbage, pointer, ExpandingArray, int_limit, clear, enlarge, store, set_at, read_cell, get,
}
use sflow.ExpandingArray.Grow.{grow_lem}

-- No cell is left as `realloc` gave it.
abbrev pub Initialised : List Cell → Type 0
Initialised [] = Unit {0}
Initialised (garbage ∷ cs) = ⊥
Initialised (pointer p ∷ cs) = Initialised cs

pub record IsArray (arr : ExpandingArray) : Type 0 where
  pub positive : 0 < arr.capacity
  pub bounded : arr.capacity < int_limit
  pub sized : length arr.cells ≡ arr.capacity
  pub initialised : Initialised arr.cells

abbrev cell_pointer : Cell → ℕ
cell_pointer garbage = 0
cell_pointer (pointer p) = p

abbrev pub pointer_at : List Cell → ℕ → ℕ
pointer_at [] i = 0
pointer_at (c ∷ cs) zero = cell_pointer c
pointer_at (c ∷ cs) (suc i) = pointer_at cs i

-- The map that an array stands for.
abbrev pub lookup : ExpandingArray → ℕ → ℕ
lookup arr i = pointer_at arr.cells i

-- Clearing the grown part gives NULL pointers and touches nothing else.
clear-append :
    (cs : List Cell) (n : ℕ)
    → clear (cs ++ replicate n garbage) (length cs) n ≡ cs ++ replicate n (pointer 0)
unfolding clear
clear-append [] zero = refl
clear-append [] (suc n) = ap (◌∷◌ (pointer 0)) (clear-append [] n)
clear-append (c ∷ cs) n = ap (◌∷◌ c) (clear-append cs n)

clear_none : (cs : List Cell) (start : ℕ) → clear cs start 0 ≡ cs
unfolding clear
clear_none [] start = refl
clear_none (c ∷ cs) zero = refl
clear_none (c ∷ cs) (suc start) = ap (◌∷◌ c) (clear_none cs start)

Initialised-append :
    (cs : List Cell) (n : ℕ) → Initialised cs → Initialised (cs ++ replicate n (pointer 0))
Initialised-append [] zero h = tt
Initialised-append [] (suc n) h = Initialised-append [] n tt
Initialised-append (garbage ∷ cs) n h = absurd h
Initialised-append (pointer p ∷ cs) n h = Initialised-append cs n h

Initialised-set : (cs : List Cell) (i p : ℕ) → Initialised cs → Initialised (set cs i (pointer p))
Initialised-set [] i p h = tt
Initialised-set (garbage ∷ cs) i p h = absurd h
Initialised-set (pointer q ∷ cs) zero p h = h
Initialised-set (pointer q ∷ cs) (suc i) p h = Initialised-set cs i p h

pointer_at-append :
    (cs : List Cell) (n j : ℕ) → pointer_at (cs ++ replicate n (pointer 0)) j ≡ pointer_at cs j
pointer_at-append [] zero j = refl
pointer_at-append [] (suc n) zero = refl
pointer_at-append [] (suc n) (suc j) = pointer_at-append [] n j
pointer_at-append (c ∷ cs) n zero = refl
pointer_at-append (c ∷ cs) n (suc j) = pointer_at-append cs n j

pointer_at-set :
    (cs : List Cell) (i j p : ℕ)
    → i < length cs
    → pointer_at (set cs i (pointer p)) j ≡ (if j == i then p else pointer_at cs j)
pointer_at-set [] i j p h = elim h [ ]
pointer_at-set (c ∷ cs) zero zero p h = refl
pointer_at-set (c ∷ cs) zero (suc j) p h = ground arith
pointer_at-set (c ∷ cs) (suc i) zero p h = ground arith
pointer_at-set (c ∷ cs) (suc i) (suc j) p h = ground (arith, pointer_at-set cs i j p (omega arith))

-- The cells once the new ones are cleared.
enlarge_lem :
    (arr : ExpandingArray) (index : ℕ)
    → IsArray arr
    → index < 2 ^ 30
    → (cap n : ℕ) × (cells : List Cell) × (enlarge arr index ≡ ok (cap, cells))
      × (clear cells arr.capacity (cap - arr.capacity) ≡ arr.cells ++ replicate n (pointer 0))
      × (cap ≡ arr.capacity + n)
      × (index < cap)
      × (cap < int_limit)
unfolding enlarge power
enlarge_lem arr index v small = elim (Bool-cases (leb arr.capacity index)) [
  | inl more ↦
      let (cap, e, above, keeps, bound) =
        grow_lem 31 index arr.capacity v.positive small (omega (arith, v.positive)) in
      let n = cap - arr.capacity in
      (
        cap,
        n,
        arr.cells ++ replicate n garbage,
        rw (more, e),
        subst
            (λ (k : ℕ).
              clear (arr.cells ++ replicate n garbage) k n ≡ arr.cells ++ replicate n (pointer 0))
            v.sized (clear-append arr.cells n),
        omega arith,
        above,
        bound v.bounded,
      )
  | inr fits ↦ (
    arr.capacity,
    0,
    arr.cells,
    rw fits,
    ap (clear arr.cells arr.capacity) sub_self
        ∙ clear_none arr.cells arr.capacity
        ∙ sym (append-nil arr.cells),
    omega arith,
    ground arith,
    v.bounded,
  )
]
  where
    sub_self : arr.capacity - arr.capacity ≡ 0
    sub_self = omega arith

module _ (arr : ExpandingArray) (index p : ℕ) (v : IsArray arr) (small : index < 2 ^ 30) where
  -- On a well-formed array and for an index below 2 ^ 30 expanding_array_set succeeds with a well-
  -- formed array: the index is within the capacity, which has not shrunk, and of the pointers,
  -- NULL where none was set, only the one at the index has changed.
  pub set_at_lem :
      (arr' : ExpandingArray) × (set_at arr index p ≡ ok arr')
      × IsArray arr'
      × (index < arr'.capacity)
      × (arr.capacity ≤ arr'.capacity)
      × ((j : ℕ) → lookup arr' j ≡ (if j == index then p else lookup arr j))
  unfolding set_at store
  set_at_lem =
      let (cap, n, cells, e, cleared, total, above, bound) = enlarge_lem arr index v small in
      let new : List Cell = arr.cells ++ replicate n (pointer 0) in
      let inside : index < length new =
        rw (length-append, length-replicate, v.sized) (omega arith) in
      (
        record { capacity = cap; cells = set new index (pointer p) },
        rw (e, cleared, lt→ltb index (length new) inside),
        record {
          positive = omega arith;
          bounded = bound;
          sized =
              length-set new index (pointer p)
              ∙ rw (length-append, length-replicate, v.sized) (omega arith);
          initialised = Initialised-set new index p (Initialised-append arr.cells n v.initialised);
        },
        above,
        omega arith,
        λ j. pointer_at-set new index j p inside ∙ rw (pointer_at-append arr.cells n j),
      )

read_cells :
    (cs : List Cell) (i : ℕ)
    → Initialised cs
    → i < length cs
    → get_elem? cs i ≡ some (pointer (pointer_at cs i))
read_cells [] i h lt = elim lt [ ]
read_cells (garbage ∷ cs) i h lt = absurd h
read_cells (pointer q ∷ cs) zero h lt = refl
read_cells (pointer q ∷ cs) (suc i) h lt = read_cells cs i h (omega arith)

-- On a well-formed array reading within the capacity gives the pointer that was set, NULL if none
-- was, and reading beyond it fails the assertion.
pub get_lem :
    (arr : ExpandingArray) (i : ℕ)
    → IsArray arr
    → get arr i ≡ (if ltb i arr.capacity then ok (lookup arr i) else fault assert_failed)
unfolding get read_cell
get_lem arr i v = elim (Bool-cases (ltb i arr.capacity)) [
  | inl e ↦ rw (e, read_cells arr.cells i v.initialised (ground arith))
  | inr e ↦ rw e
]

pointer_at_beyond : (cells : List Cell) (j : ℕ) → length cells ≤ j → pointer_at cells j ≡ 0
pointer_at_beyond [] j le = refl
pointer_at_beyond (c ∷ cells) zero le = absurd (omega arith)
pointer_at_beyond (c ∷ cells) (suc j) le = pointer_at_beyond cells j (omega arith)

-- Nothing was set beyond the capacity.
pub lookup_beyond :
    (arr : ExpandingArray) (j : ℕ) → IsArray arr → arr.capacity ≤ j → lookup arr j ≡ 0
lookup_beyond arr j v le = pointer_at_beyond arr.cells j (omega (arith, v.sized))
