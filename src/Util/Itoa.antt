-- ===== src/Util/Itoa.antt =====
-- `itoa` of sflow/sflow_util.c, for numbers that are not negative.
use sflow.Common.{
  ℕ, zero, suc, ◌+◌, ◌-◌, ◌*◌, ◌/◌, ◌%◌, ◌<◌, ◌≤◌, ◌≡◌, refl, Bool-cases, inl, inr, arith, false,
  length, length-reverse, List, [], ◌∷◌, ltb, if◌then◌else◌, Outcome, ok, fault, ◌>>=◌, out_of_fuel,
}
use mathlib.Core.List.{reverse}

-- do { s[i++] = n % 10 + '0'; } while ((n /= 10) > 0); with the rounds allowed
unfoldable pub digits : ℕ → ℕ → Outcome (List ℕ)
digits zero n = fault out_of_fuel
digits (suc fuel) n =
    let rest = digits fuel (n / 10) in
    if ltb 0 (n / 10) then (do more ← rest; ok ((n % 10 + 48) ∷ more)) else ok ((n % 10 + 48) ∷ [])

-- Each round divides by ten, so n + 1 rounds are enough.
unfoldable pub itoa : ℕ → Outcome (List ℕ)
itoa n = do s ← digits (n + 1) n; ok (reverse s)

-- The number that decimal digits stand for, the lowest first.
abbrev pub decimal : List ℕ → ℕ
decimal [] = 0
decimal (c ∷ s) = (c - 48) + 10 * decimal s

-- Characters from '0' to '9'
abbrev pub AreDigits : List ℕ → Type 0
AreDigits [] = Unit {0}
AreDigits (c ∷ s) = (48 ≤ c) × (c ≤ 57) × AreDigits s

digits-ends :
    (fuel n : ℕ)
    → n < fuel
    → (s : List ℕ) × (digits fuel n ≡ ok s) × AreDigits s × (decimal s ≡ n) × (1 ≤ length s)
unfolding digits
digits-ends zero n h = absurd (omega arith)
digits-ends (suc fuel) n h = elim (Bool-cases (ltb 0 (n / 10))) [
  | inl t ↦
      let (s, e, are, d, _) = digits-ends fuel (n / 10) (ground (arith, t)) in
      (
        (n % 10 + 48) ∷ s,
        rw (t, e) refl,
        (omega arith, omega arith, are),
        omega (arith, d),
        omega arith,
      )
  | inr t ↦ (
    (n % 10 + 48) ∷ [],
    rw t refl,
    (omega arith, omega arith, tt),
    ground (arith, t),
    omega arith,
  )
]

-- For a number that is not negative itoa ends, and it writes decimal digits, the lowest last, that
-- stand for the number.
pub itoa-decimal :
    (n : ℕ) → (s : List ℕ) × (itoa n ≡ ok (reverse s)) × AreDigits s × (decimal s ≡ n)
unfolding itoa
itoa-decimal n =
    let (s, e, are, d, _) = digits-ends (n + 1) n (omega arith) in (s, rw e refl, are, d)

-- 10 to a power, as a number that a number is below
abbrev pub ten_to : ℕ → ℕ
ten_to zero = 1
ten_to (suc k) = 10 * ten_to k

digits-length :
    (fuel n k : ℕ)
    → n < fuel
    → n < ten_to (suc k)
    → (s : List ℕ) × (digits fuel n ≡ ok s) × (length s ≤ suc k)
unfolding digits
digits-length zero n k f h = absurd (omega arith)
digits-length (suc fuel) n zero f h =
    let small : ltb 0 (n / 10) ≡ false = ground arith in
    ((n % 10 + 48) ∷ [], rw small refl, omega arith)
digits-length (suc fuel) n (suc k) f h = elim (Bool-cases (ltb 0 (n / 10))) [
  | inl t ↦
      let (s, e, le) = digits-length fuel (n / 10) k (ground (arith, t)) (omega arith) in
      ((n % 10 + 48) ∷ s, rw (t, e) refl, omega arith)
  | inr t ↦ ((n % 10 + 48) ∷ [], rw t refl, omega arith)
]

-- A number below 10^(k + 1) is written with at most k + 1 digits.
pub itoa-length :
    (n k : ℕ) → n < ten_to (suc k) → (s : List ℕ) × (itoa n ≡ ok s) × (length s ≤ suc k)
unfolding itoa
itoa-length n k h =
    let (s, e, le) = digits-length (n + 1) n k (omega arith) h in
    (reverse s, rw e refl, omega (arith, length-reverse s))

pub itoa-nonempty : (n : ℕ) → (s : List ℕ) × (itoa n ≡ ok s) × (1 ≤ length s)
unfolding itoa
itoa-nonempty n =
    let (s, e, _, _, le) = digits-ends (n + 1) n (omega arith) in
    (reverse s, rw e refl, omega (arith, length-reverse s))
