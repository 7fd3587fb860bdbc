-- ===== src/Common/Loops.antt =====
-- Counted loops whose body may fault, and the sums that they compute.
use Prim.Native.Nat.{ℕ, zero, suc, ◌+◌, ◌*◌, ◌/◌, ◌≤◌, ◌<◌}
use mathlib.Core.Path.{◌≡◌, refl}
use native.Mathlib.Omega.{arith}
use native.Mathlib.Nat.{le-div_iff_mul-le, div-mul-le_self, mul-div-le}
use native.Mathlib.Numerals.{add-one}
use sflow.Common.Faults.{Outcome, ok, ◌>>=◌}

-- for (; i < i + n; i++) s = body (i, s)
unfoldable pub for_range {ℓ} : {S : Type ℓ} → ℕ → ℕ → (ℕ → S → Outcome S) → S → Outcome S
for_range zero i body s = ok s
for_range (suc n) i body s = do s' ← body i s; for_range n (i + 1) body s'

-- A round that succeeds and keeps the invariant, for every i below the end, makes a loop that does.
pub for_range_inv {ℓ κ} :
    {S : Type ℓ} (P : ℕ → S → Type κ) (body : ℕ → S → Outcome S) (last : ℕ)
    → ((i : ℕ) (s : S) → i < last → P i s → (s' : S) × (body i s ≡ ok s') × P (i + 1) s')
    → (n i : ℕ) (s : S) → i + n ≡ last
    → P i s
    → (s' : S) × (for_range n i body s ≡ ok s') × P last s'
unfolding for_range
for_range_inv P body last keep zero i s e h =
    let e' : i ≡ last = omega arith in (s, refl, rw (← e') h)
for_range_inv P body last keep (suc n) i s e h =
    let (s', e_s, h') = keep i s (omega arith) h in
    let (s'', e_s', h'') = for_range_inv P body last keep n (i + 1) s' (omega arith) h' in
    (s'', rw e_s e_s', h'')

-- f 0 + ... + f (n - 1)
unfoldable pub sum_below : ℕ → (ℕ → ℕ) → ℕ
sum_below zero f = 0
sum_below (suc n) f = sum_below n f + f n

pub sum_below-le :
    (n bound : ℕ) (f : ℕ → ℕ) → ((i : ℕ) → i < n → f i ≤ bound) → sum_below n f ≤ n * bound
unfolding sum_below
sum_below-le zero bound f h = omega arith
sum_below-le (suc n) bound f h =
    omega (arith, sum_below-le n bound f (λ i small. h i (omega arith)), h n (omega arith))

pub sum_below-next : (n : ℕ) (f : ℕ → ℕ) → sum_below (n + 1) f ≡ sum_below n f + f n
unfolding sum_below
sum_below-next n f = rw add-one refl

-- The sum of n shares, each rounded down, is no more than the largest of the numbers shared.
pub average-le :
    (n b : ℕ) (f : ℕ → ℕ) → 0 < n → ((i : ℕ) → i < n → f i ≤ b) → sum_below n (λ i. f i / n) ≤ b
average-le n b f pos h =
    let all =
      sum_below-le n (b / n) (λ i. f i / n)
        (λ i small.
          (le-div_iff_mul-le pos).1 (omega (arith, div-mul-le_self (f i) n, h i small))) in
    omega (arith, all, mul-div-le b n)
