-- ===== src/Protocol/Sequence.antt =====
-- The loops of sflow/sflow_protocol_branches.c that flatten, and that add up the lengths of, the
-- objects whose pointers follow a structure in memory.
use sflow.Common.{
  ℕ, zero, suc, ◌+◌, ◌%◌, ◌^◌, ◌<◌, ◌≡◌, refl, sym, ap, ◌∙◌, subst, List, [], ◌∷◌, ◌++◌,
  append_assoc, append-nil, arith, length, length-append, get_elem?, get_elem?-append_right, some,
  or_fault, out_of_bounds, Outcome, ok, fault,
}
use sflow.Common
use sflow.Memory.Buffer.{Cmd, pure, fail, ◌>>=◌, Writes, bind-Writes, map-Writes, pure-Writes}

module _ {A : Type 0} where
  abbrev pub All : (A → Type 0) → List A → Type 0
  All P [] = Unit {0}
  All P (x ∷ xs) = P x × All P xs

  abbrev pub bytes_of : (A → List ℕ) → List A → List ℕ
  bytes_of enc [] = []
  bytes_of enc (x ∷ xs) = enc x ++ bytes_of enc xs

  -- for (; i < count; i++) len += x->flat(&start_point, x), where `n` rounds are left.
  unfoldable pub flat_each : (ℕ → A → Cmd ℕ) → ℕ → ℕ → List A → ℕ → Cmd ℕ
  flat_each flat zero i xs at = pure 0
  flat_each flat (suc n) i xs at = do
    x ← fail (or_fault (get_elem? xs i) out_of_bounds)
    len ← flat at x
    rest ← flat_each flat n (suc i) xs (at + len)
    pure (len + rest)

  -- for (; i < count; i++) len += ..., in 32 bits
  unfoldable pub sum_each : (A → ℕ) → ℕ → ℕ → List A → ℕ → Outcome ℕ
  sum_each size zero i xs len = ok len
  sum_each size (suc n) i xs len =
      Common.◌>>=◌ (or_fault (get_elem? xs i) out_of_bounds)
        λ x. sum_each size n (suc i) xs ((len + size x) % 2 ^ 32)

  abbrev pub total : (A → ℕ) → List A → ℕ
  total size [] = 0
  total size (x ∷ xs) = size x + total size xs

  found :
      (ys before xs : List A) (x : A) (i : ℕ)
      → ys ≡ before ++ x ∷ xs
      → i ≡ length before
      → get_elem? ys i ≡ some x
  found ys before xs x i ey ei = rw (ey, at_end) (get_elem?-append_right before (x ∷ xs) 0)
    where
      at_end : i ≡ length before + 0
      at_end = omega arith

  module _ (flat : ℕ → A → Cmd ℕ) (enc : A → List ℕ) where
    -- An object that its flat function writes out whole
    abbrev pub FlatWrites : A → Type 0
    FlatWrites x = (at : ℕ) → Writes at (enc x) (length (enc x)) (flat at x)

    each-Writes :
        (ys before xs : List A) (i at : ℕ)
        → ys ≡ before ++ xs
        → i ≡ length before
        → All FlatWrites xs
        → Writes at
            (bytes_of enc xs)
            (length (bytes_of enc xs))
            (flat_each flat (length xs) i ys at)
    unfolding flat_each
    each-Writes ys before [] i at ey ei h = pure-Writes 0 at
    each-Writes ys before (x ∷ xs) i at ey ei (hx, hxs) = rw (found ys before xs x i ey ei) (
        bind-Writes at (enc x) (bytes_of enc xs) (length (enc x)) _ (flat at x) _ (hx at) (
          map-Writes (at + length (enc x)) (bytes_of enc xs) (length (bytes_of enc xs)) _
            (flat_each flat (length xs) (suc i) ys (at + length (enc x)))
            (λ rest. pure (length (enc x) + rest))
            (each-Writes ys (before ++ x ∷ []) xs (suc i) (at + length (enc x))
              (ey ∙ sym (append_assoc before (x ∷ []) xs))
              (omega (arith, length-append before (x ∷ []))) hxs)
            (ap pure (sym (length-append (enc x) (bytes_of enc xs))))))

    -- The loop writes the objects one behind the other.
    pub flat_each-Writes :
        (xs : List A) (at : ℕ)
        → All FlatWrites xs
        → Writes at
            (bytes_of enc xs)
            (length (bytes_of enc xs))
            (flat_each flat (length xs) 0 xs at)
    flat_each-Writes xs at h = each-Writes xs [] xs 0 at refl refl h

  sum_from :
      (size : A → ℕ) (ys before xs : List A) (i len : ℕ)
      → ys ≡ before ++ xs
      → i ≡ length before
      → len + total size xs < 2 ^ 32
      → sum_each size (length xs) i ys len ≡ ok (len + total size xs)
  unfolding sum_each
  sum_from size ys before [] i len ey ei h = ap ok (omega arith)
  sum_from size ys before (x ∷ xs) i len ey ei h = rw (found ys before xs x i ey ei) (
      ap (sum_each size (length xs) (suc i) ys) fits
      ∙ sum_from size ys (before ++ x ∷ []) xs (suc i) (len + size x)
          (ey ∙ sym (append_assoc before (x ∷ []) xs))
          (omega (arith, length-append before (x ∷ []))) (omega arith)
      ∙ ap ok (omega arith))
    where
      fits : (len + size x) % 2 ^ 32 ≡ len + size x
      fits = omega arith

  -- Without a wrap the loop adds up all sizes.
  pub sum_each_lem :
      (size : A → ℕ) (xs : List A) (len : ℕ)
      → len + total size xs < 2 ^ 32
      → sum_each size (length xs) 0 xs len ≡ ok (len + total size xs)
  sum_each_lem size xs len h = sum_from size xs [] xs 0 len refl refl h
