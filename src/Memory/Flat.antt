-- ===== src/Memory/Flat.antt =====
-- The two shapes of a flat function: a structure copied as it is, and a head followed by what
-- another flat function writes.
use sflow.Common.{ℕ, ◌+◌, ◌≡◌, sym, ap, ◌∙◌, subst, List, ◌++◌, arith, length, length-append}
use sflow.Memory.Endian.{Endian}
use sflow.Memory.Layout.{Field, struct_image, struct_size, length-struct_image}
use sflow.Memory.Buffer.{Cmd, pure, ◌>>=◌, Writes, memcpy, memcpy-Writes, map-Writes, bind-Writes}

-- A structure copied without its pointer, where the size that is returned is right.
pub struct-Writes :
    (e : Endian) (at n : ℕ) (fs : List Field)
    → struct_size fs ≡ n
    → Writes at
        (struct_image e fs)
        (length (struct_image e fs))
        (memcpy at (struct_image e fs) >>= λ _. pure n)
struct-Writes e at n fs h =
    map-Writes at (struct_image e fs) tt (length (struct_image e fs))
      (memcpy at (struct_image e fs)) (λ _. pure n) (memcpy-Writes at (struct_image e fs))
      (ap pure (sym h ∙ sym (length-struct_image e fs)))

-- A head of `n` bytes, and behind it what `body` writes.
pub headed-Writes :
    (e : Endian) (at n : ℕ) (fs : List Field) (bs : List ℕ) (body : Cmd ℕ)
    → struct_size fs ≡ n
    → Writes (at + n) bs (length bs) body
    → Writes at
        (struct_image e fs ++ bs)
        (length (struct_image e fs ++ bs))
        (memcpy at (struct_image e fs) >>= λ _. body >>= λ k. pure (n + k))
headed-Writes e at n fs bs body h w =
    bind-Writes at (struct_image e fs) bs tt _ (memcpy at (struct_image e fs)) _
      (memcpy-Writes at (struct_image e fs))
      (map-Writes (at + length (struct_image e fs)) bs (length bs) _ body (λ k. pure (n + k))
        (subst (λ (t : ℕ). Writes (at + t) bs (length bs) body) size w) (ap pure total))
  where
    size : n ≡ length (struct_image e fs)
    size = sym h ∙ sym (length-struct_image e fs)

    total : n + length bs ≡ length (struct_image e fs ++ bs)
    total = omega (arith, length-append (struct_image e fs) bs, size)

-- Bytes copied, and what is written behind them.
pub behind-Writes :
    {B : Type 0} (at next : ℕ) (bs ys : List ℕ) (b : B) (rest : Cmd B)
    → next ≡ at + length bs
    → Writes next ys b rest
    → Writes at (bs ++ ys) b (memcpy at bs >>= λ _. rest)
behind-Writes {B} at next bs ys b rest h w =
    bind-Writes at bs ys tt b (memcpy at bs) (λ _. rest) (memcpy-Writes at bs)
      (subst (λ (t : ℕ). Writes {A = B} t ys b rest) h w)
