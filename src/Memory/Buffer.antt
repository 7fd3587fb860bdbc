-- ===== src/Memory/Buffer.antt =====
-- The buffer that sflow_datagram_flat allocates. A pointer into it is an offset; a `memcpy` that
-- leaves it is a fault. `Writes at bs n m` says of a command that it puts `bs` at `at` and
-- returns `n`, whatever else the buffer holds.
use sflow.Common.{
  ℕ, zero, suc, ◌+◌, ◌≤◌, ◌≡◌, refl, sym, ap, ◌∙◌, List, [], ◌∷◌, ◌++◌, arith, length, leb, le→leb,
  length-append, if◌then◌else◌, Outcome, ok, fault, out_of_bounds,
}

abbrev pub Buffer : Type 0
Buffer = List ℕ

-- The buffer with `bs` at offset `at`; what does not fit is dropped.
unfoldable pub write : Buffer → ℕ → List ℕ → Buffer
write [] at bs = []
write (b ∷ buf) zero [] = b ∷ buf
write (b ∷ buf) zero (x ∷ bs) = x ∷ write buf zero bs
write (b ∷ buf) (suc at) bs = b ∷ write buf at bs

abbrev pub Cmd : Type 0 → Type 0
Cmd A = Buffer → Outcome (A × Buffer)

abbrev pub pure : {A : Type 0} → A → Cmd A
pure a buf = ok (a, buf)

abbrev pub fail : {A : Type 0} → Outcome A → Cmd A
fail (ok a) buf = ok (a, buf)
fail (fault e) buf = fault e

module _ {A B : Type 0} where
  abbrev pub and_then : Outcome (A × Buffer) → (A → Cmd B) → Outcome (B × Buffer)
  and_then (ok (a, buf)) k = k a buf
  and_then (fault e) k = fault e

  infixl 5 ◌>>=◌ ◌>>◌
  abbrev pub ◌>>=◌ : Cmd A → (A → Cmd B) → Cmd B
  m >>= k = λ buf. and_then (m buf) k

  abbrev pub ◌>>◌ : Cmd A → Cmd B → Cmd B
  m >> k = m >>= λ _. k

-- `memcpy(*buf + at, bs, length bs)`
unfoldable pub memcpy : ℕ → List ℕ → Cmd (Unit {0})
memcpy at bs buf =
    if leb (at + length bs) (length buf) then ok (tt, write buf at bs) else fault out_of_bounds

pub length-write : (buf : Buffer) (at : ℕ) (bs : List ℕ) → length (write buf at bs) ≡ length buf
unfolding write
length-write [] at bs = refl
length-write (b ∷ buf) zero [] = refl
length-write (b ∷ buf) zero (x ∷ bs) = ap suc (length-write buf zero bs)
length-write (b ∷ buf) (suc at) bs = ap suc (length-write buf at bs)

write_nil : (buf : Buffer) (at : ℕ) → write buf at [] ≡ buf
unfolding write
write_nil [] at = refl
write_nil (b ∷ buf) zero = refl
write_nil (b ∷ buf) (suc at) = ap (◌∷◌ b) (write_nil buf at)

-- Two writes side by side are one.
write-write :
    (buf : Buffer) (at : ℕ) (xs ys : List ℕ)
    → write (write buf at xs) (at + length xs) ys ≡ write buf at (xs ++ ys)
unfolding write
write-write [] at xs ys = refl
write-write (b ∷ buf) zero [] ys = refl
write-write (b ∷ buf) zero (x ∷ xs) ys =
    ap (λ (t : ℕ). write (x ∷ write buf 0 xs) t ys) shift ∙ ap (◌∷◌ x) (write-write buf 0 xs ys)
  where
    shift : 0 + suc (length xs) ≡ suc (0 + length xs)
    shift = omega arith
write-write (b ∷ buf) (suc at) xs ys =
    ap (λ (t : ℕ). write (b ∷ write buf at xs) t ys) shift ∙ ap (◌∷◌ b) (write-write buf at xs ys)
  where
    shift : suc at + length xs ≡ suc (at + length xs)
    shift = omega arith

-- A write of the buffer's size leaves nothing of what it held.
pub write_all : (buf bs : List ℕ) → length bs ≡ length buf → write buf 0 bs ≡ bs
unfolding write
write_all [] [] h = refl
write_all [] (x ∷ bs) h = absurd (omega arith)
write_all (b ∷ buf) [] h = absurd (omega arith)
write_all (b ∷ buf) (x ∷ bs) h = ap (◌∷◌ x) (write_all buf bs (omega arith))

module _ {A : Type 0} where
  abbrev pub Writes : ℕ → List ℕ → A → Cmd A → Type 0
  Writes at bs a m = (buf : Buffer) → at + length bs ≤ length buf → m buf ≡ ok (a, write buf at bs)

pub pure-Writes : {A : Type 0} (a : A) (at : ℕ) → Writes at [] a (pure a)
pure-Writes a at buf h = ap (λ (c : Buffer). ok (a, c)) (sym (write_nil buf at))

pub memcpy-Writes : (at : ℕ) (bs : List ℕ) → Writes at bs tt (memcpy at bs)
unfolding memcpy
memcpy-Writes at bs buf h = ground (arith, le→leb (at + length bs) (length buf))

module _ {A B : Type 0} where
  -- One command after another writes the bytes of both.
  pub bind-Writes :
      (at : ℕ) (xs ys : List ℕ) (a : A) (b : B) (m : Cmd A) (k : A → Cmd B)
      → Writes at xs a m
      → Writes (at + length xs) ys b (k a)
      → Writes at (xs ++ ys) b (m >>= k)
  bind-Writes at xs ys a b m k p q buf h =
      ap (λ (r : Outcome (A × Buffer)). and_then r k) (p buf (omega (arith, length-append xs ys)))
      ∙ q (write buf at xs) (omega (arith, length-append xs ys, length-write buf at xs))
      ∙ ap (λ (c : Buffer). ok (b, c)) (write-write buf at xs ys)

  -- A command that only computes.
  pub map-Writes :
      (at : ℕ) (xs : List ℕ) (a : A) (b : B) (m : Cmd A) (k : A → Cmd B)
      → Writes at xs a m
      → k a ≡ pure b
      → Writes at xs b (m >>= k)
  map-Writes at xs a b m k p q buf h =
      ap (λ (r : Outcome (A × Buffer)). and_then r k) (p buf h)
      ∙ ap (λ (c : Cmd B). c (write buf at xs)) q
