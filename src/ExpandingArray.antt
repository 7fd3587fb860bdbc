-- ===== src/ExpandingArray.antt =====
-- sflow/expanding_array.c and .h: an array of pointers that doubles until an index fits.
-- An `int` index is modelled where it is not negative; `ea_capacity` is an `int`.
pub mod Grow
pub mod Laws
use sflow.Common.{
  ℕ, zero, suc, ◌+◌, ◌-◌, ◌*◌, ◌^◌, Bool, true, false, List, [], ◌∷◌, ◌++◌, length, get_elem?, set,
  replicate, leb, ltb, if◌then◌else◌, Option, none, some, Outcome, ok, fault, ◌>>=◌, ◌>>◌, assert,
  or_fault, out_of_bounds, uninitialised, int_overflow, out_of_fuel,
}

-- A pointer-sized cell: what `malloc` or `realloc` left there, or a pointer; 0 is NULL.
pub data Cell : Type 0 where
  garbage : Cell
  pointer : ℕ → Cell

pub record ExpandingArray : Type 0 where
  pub capacity : ℕ
  pub cells : List Cell

-- INIT_SIZE
abbrev pub init_size : ℕ
init_size = 8

abbrev pub int_limit : ℕ
int_limit = 2 ^ 31

-- memset(cells + start, 0, n cells)
unfoldable pub clear : List Cell → ℕ → ℕ → List Cell
clear [] start n = []
clear (c ∷ cs) zero zero = c ∷ cs
clear (c ∷ cs) zero (suc n) = pointer 0 ∷ clear cs zero n
clear (c ∷ cs) (suc start) n = c ∷ clear cs start n

unfoldable pub create : ExpandingArray
unfolding clear
create = record { capacity = init_size; cells = clear (replicate init_size garbage) 0 init_size }

-- while (index >= arr->ea_capacity) arr->ea_capacity *= 2;
pub grow : ℕ → ℕ → ℕ → Outcome ℕ
grow zero index cap = if leb cap index then fault out_of_fuel else ok cap
grow (suc fuel) index cap =
    let more = grow fuel index (cap * 2) in
    if leb cap index then (if leb int_limit (cap * 2) then fault int_overflow else more) else ok cap

-- The capacity and the block after the `if` of expanding_array_set. `realloc` keeps the cells.
enlarge : ExpandingArray → ℕ → Outcome (ℕ × List Cell)
enlarge arr index =
    if leb arr.capacity index
    then (do
      cap ← grow 31 index arr.capacity
      ok (cap, arr.cells ++ replicate (cap - arr.capacity) garbage))
    else ok (arr.capacity, arr.cells)

-- memcpy(arr->ea_array + index * _PSIZE, &pdata, _PSIZE)
store : List Cell → ℕ → ℕ → Outcome (List Cell)
store cells index p =
    if ltb index (length cells) then ok (set cells index (pointer p)) else fault out_of_bounds

unfoldable pub set_at : ExpandingArray → ℕ → ℕ → Outcome ExpandingArray
unfolding enlarge store clear
set_at arr index p = do
  (cap, cells) ← enlarge arr index
  cells' ← store (clear cells arr.capacity (cap - arr.capacity)) index p
  ok (record { capacity = cap; cells = cells' })

read_cell : Cell → Outcome ℕ
read_cell garbage = fault uninitialised
read_cell (pointer p) = ok p

unfoldable pub get : ExpandingArray → ℕ → Outcome ℕ
unfolding read_cell
get arr index = do
  assert (ltb index arr.capacity)
  cell ← or_fault (get_elem? arr.cells index) out_of_bounds
  read_cell cell
