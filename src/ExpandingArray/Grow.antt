-- ===== src/ExpandingArray/Grow.antt =====
-- The loop that doubles the capacity.
use sflow.Common.{
  ℕ, zero, suc, ◌*◌, ◌^◌, ◌≤◌, ◌<◌, ◌≡◌, inl, inr, arith, leb, Bool-cases, leb→le, ok,
}
use sflow.Common.Bits.{power}
use sflow.ExpandingArray.{grow, int_limit}

-- With `index` below 2 ^ 30 no doubling overflows, and the loop ends above `index`.
pub grow_lem :
    (fuel index cap : ℕ)
    → 0 < cap
    → index < 2 ^ 30
    → index < cap * power fuel
    → (cap' : ℕ) × (grow fuel index cap ≡ ok cap')
      × (index < cap')
      × (cap ≤ cap')
      × (cap < int_limit → cap' < int_limit)
unfolding grow power
grow_lem zero index cap pos small enough = (cap, ground arith, omega arith, omega arith, λ h. h)
grow_lem (suc fuel) index cap pos small enough = elim (Bool-cases (leb cap index)) [
  | inl more ↦
      let (cap', e, above, keeps, bound) =
        grow_lem fuel index (cap * 2) (omega arith) small (omega arith) in
      (
        cap',
        ground (arith, e),
        above,
        omega arith,
        λ h. bound (omega (arith, leb→le cap index more)),
      )
  | inr done ↦ (cap, ground arith, ground arith, omega arith, λ h. h)
]
