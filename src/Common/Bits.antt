-- ===== src/Common/Bits.antt =====
-- Laws of `|` and `&` that the field macros of sflow_protocol_branches.h rest on.
use Prim.Native.Nat.{
  ℕ, zero, suc, ◌+◌, ◌*◌, ◌/◌, ◌%◌, ◌≤◌, ◌<◌, min, max, bit_and, bit_or, digits, bit_and-bitwise,
  bit_or-bitwise,
}
use mathlib.Core.Path.{◌≡◌, refl, sym, ap, ◌∙◌}
use native.Mathlib.Omega.{arith}
use native.Mathlib.Nat.{mod-lt, mod-eq_of_lt, div-add-mod, add-mul-mod_self_left}

-- Both operations are the loop `digits`, which takes a round for each digit.
module _ (ended : ℕ → ℕ) (digit : ℕ → ℕ → ℕ) where
  no_digits : (rounds b : ℕ) → digits ended digit rounds 0 b ≡ ended b
  no_digits zero b = refl
  no_digits (suc rounds) b = refl

  enough_rounds :
      (a b n m : ℕ) → a ≤ n → a ≤ m → digits ended digit n a b ≡ digits ended digit m a b
  enough_rounds zero b n m hn hm = no_digits n b ∙ sym (no_digits m b)
  enough_rounds (suc a) b zero m hn hm = absurd (omega arith)
  enough_rounds (suc a) b (suc n) zero hn hm = absurd (omega arith)
  enough_rounds (suc a) b (suc n) (suc m) hn hm =
      ap (λ (t : ℕ). t * 2 + digit (suc a % 2) (b % 2))
        (enough_rounds (suc a / 2) (b / 2) n m (omega arith) (omega arith))

  -- The lowest digits apart from the others
  lowest :
      (a b : ℕ)
      → ((c : ℕ) → ended c ≡ ended (c / 2) * 2 + digit 0 (c % 2))
      → digits ended digit a a b
        ≡ digits ended digit (a / 2) (a / 2) (b / 2) * 2 + digit (a % 2) (b % 2)
  lowest zero b law = law b
  lowest (suc a) b law =
      ap (λ (t : ℕ). t * 2 + digit (suc a % 2) (b % 2))
        (enough_rounds (suc a / 2) (b / 2) a (suc a / 2) (omega arith) (omega arith))

pub zero-bit_or : (b : ℕ) → bit_or 0 b ≡ b
zero-bit_or b = bit_or-bitwise 0 b

bit_or_step : (a b : ℕ) → bit_or a b ≡ bit_or (a / 2) (b / 2) * 2 + max (a % 2) (b % 2)
bit_or_step a b =
    bit_or-bitwise a b
    ∙ lowest (λ c. c) max a b (λ c. omega arith)
    ∙ ap (λ (t : ℕ). t * 2 + max (a % 2) (b % 2)) (sym (bit_or-bitwise (a / 2) (b / 2)))

bit_and_step : (a b : ℕ) → bit_and a b ≡ bit_and (a / 2) (b / 2) * 2 + min (a % 2) (b % 2)
bit_and_step a b =
    bit_and-bitwise a b
    ∙ lowest (λ c. zero) min a b (λ c. omega arith)
    ∙ ap (λ (t : ℕ). t * 2 + min (a % 2) (b % 2)) (sym (bit_and-bitwise (a / 2) (b / 2)))

-- With 0 on the right; `bound` is for the recursion.
on_zero : (bound a : ℕ) → a ≤ bound → (bit_or a 0 ≡ a) × (bit_and a 0 ≡ 0)
on_zero bound zero h = (refl, refl)
on_zero zero (suc a) h = absurd (omega arith)
on_zero (suc bound) (suc a) h =
    let (e_or, e_and) = on_zero bound (suc a / 2) (omega arith) in
    (omega (arith, bit_or_step (suc a) 0, e_or), omega (arith, bit_and_step (suc a) 0, e_and))

doubled : (a p : ℕ) → a * (2 * p) / 2 ≡ a * p
doubled a p = omega arith

doubled_one : (n : ℕ) → (2 * n + 1) / 2 ≡ n
doubled_one n = omega arith

-- The k lowest bits set.
unfoldable pub ones : ℕ → ℕ
ones zero = 0
ones (suc k) = 2 * ones k + 1

-- 2 ^ k, as doublings.
unfoldable pub power : ℕ → ℕ
power zero = 1
power (suc k) = 2 * power k

power_pos : (k : ℕ) → 0 < power k
unfolding power
power_pos zero = omega arith
power_pos (suc k) = omega (arith, power_pos k)

-- The remainder by an even number, from the half and the last digit.
split_mod : (a p : ℕ) → 0 < p → a % (2 * p) ≡ a / 2 % p * 2 + a % 2
split_mod a p h =
    ap (λ (t : ℕ). t % (2 * p)) whole
    ∙ add-mul-mod_self_left (a / 2 % p * 2 + a % 2) (2 * p) (a / 2 / p)
    ∙ mod-eq_of_lt small
  where
    whole : a ≡ a / 2 % p * 2 + a % 2 + 2 * p * (a / 2 / p)
    whole = omega (arith, div-add-mod (a / 2) p)

    small : a / 2 % p * 2 + a % 2 < 2 * p
    small = omega (arith, mod-lt (a / 2) h)

-- `a << k | b` is a sum where `b` has k bits.
pub bit_or_disjoint : (k a b : ℕ) → b < power k → bit_or (a * power k) b ≡ a * power k + b
unfolding power
bit_or_disjoint zero a zero h = (on_zero (a * 1) (a * 1) (omega arith)).0 ∙ omega arith
bit_or_disjoint zero a (suc b) h = absurd (omega arith)
bit_or_disjoint (suc k) a b h = omega (
  arith,
  bit_or_step (a * (2 * power k)) b,
  ap (λ (t : ℕ). bit_or t (b / 2)) (doubled a (power k)),
  bit_or_disjoint k a (b / 2) (omega arith),
)

-- `a & ones` is a remainder.
pub bit_and-ones : (k a : ℕ) → bit_and a (ones k) ≡ a % power k
unfolding ones power
bit_and-ones zero a = omega (arith, (on_zero a a (omega arith)).1)
bit_and-ones (suc k) a = omega (
  arith,
  bit_and_step a (2 * ones k + 1),
  ap (bit_and (a / 2)) (doubled_one (ones k)),
  bit_and-ones k (a / 2),
  split_mod a (power k) (power_pos k),
)
