-- ===== src/Memory/Endian.antt =====
-- Byte order. `image` is what a store of a w-byte unsigned integer leaves in memory and `value`
-- what a load reads back; `htonl` is the C library's function of that name.
use mathlib.Core.List.{reverse}
use sflow.Common.{
  ℕ, zero, suc, ◌+◌, ◌*◌, ◌/◌, ◌%◌, ◌^◌, ◌<◌, ◌≡◌, refl, ap, ◌∙◌, List, [], ◌∷◌, arith, length,
  length-reverse,
}

pub data Endian : Type 0 where
  little big : Endian

-- The w lowest bytes of a number, the lowest first.
unfoldable pub le_bytes : ℕ → ℕ → List ℕ
le_bytes zero v = []
le_bytes (suc w) v = v % 256 ∷ le_bytes w (v / 256)

-- Network order: the highest byte first.
unfoldable pub be_bytes : ℕ → ℕ → List ℕ
unfolding le_bytes
be_bytes w v = reverse (le_bytes w v)

unfoldable pub le_value : List ℕ → ℕ
le_value [] = 0
le_value (b ∷ bs) = b + 256 * le_value bs

unfoldable pub image : Endian → ℕ → ℕ → List ℕ
unfolding be_bytes
image little w v = le_bytes w v
image big w v = be_bytes w v

unfoldable pub value : Endian → List ℕ → ℕ
unfolding le_value
value little bs = le_value bs
value big bs = le_value (reverse bs)

-- `htonl(h)` on either machine: it swaps the bytes of a 32-bit number, or does nothing.
unfoldable pub htonl : Endian → ℕ → ℕ
unfolding le_value be_bytes
htonl little v = le_value (be_bytes 4 v)
htonl big v = v % 2 ^ 32

abbrev pub AreBytes : List ℕ → Type 0
AreBytes [] = Unit {0}
AreBytes (b ∷ bs) = (b < 256) × AreBytes bs

pub le_bytes-le_value : (bs : List ℕ) → AreBytes bs → le_bytes (length bs) (le_value bs) ≡ bs
unfolding le_bytes le_value
le_bytes-le_value [] h = refl
le_bytes-le_value (b ∷ bs) (hb, hbs) =
    ap (λ (t : ℕ). t ∷ le_bytes (length bs) ((b + 256 * le_value bs) / 256)) low
    ∙ ap (λ (t : ℕ). b ∷ le_bytes (length bs) t) high
    ∙ ap (◌∷◌ b) (le_bytes-le_value bs hbs)
  where
    low : (b + 256 * le_value bs) % 256 ≡ b
    low = omega arith

    high : (b + 256 * le_value bs) / 256 ≡ le_value bs
    high = omega arith

pub length-le_bytes : (w v : ℕ) → length (le_bytes w v) ≡ w
unfolding le_bytes
length-le_bytes zero v = refl
length-le_bytes (suc w) v = ap suc (length-le_bytes w (v / 256))

pub length-image : (e : Endian) (w v : ℕ) → length (image e w v) ≡ w
unfolding image
length-image little w v = length-le_bytes w v
length-image big w v = length-reverse (le_bytes w v) ∙ length-le_bytes w v

-- What `htonl` returns lies in memory in network order, whatever the machine's order is.
pub image-htonl : (e : Endian) (v : ℕ) → image e 4 (htonl e v) ≡ be_bytes 4 v
unfolding image htonl le_bytes
image-htonl little v = le_bytes-le_value (be_bytes 4 v) (omega arith)
image-htonl big v = ground arith

four_bytes : (v : ℕ) → le_value (le_bytes 4 v) ≡ v % 2 ^ 32
unfolding le_value le_bytes
four_bytes v = omega arith

-- `ntohl` is the same function, and undoes `htonl` on 32-bit numbers.
pub htonl-htonl : (e : Endian) (v : ℕ) → htonl e (htonl e v) ≡ v % 2 ^ 32
unfolding htonl image
htonl-htonl little v =
    ap (λ (bs : List ℕ). le_value (reverse bs)) (image-htonl little v) ∙ four_bytes v
htonl-htonl big v = omega arith

pub htonl-lt : (e : Endian) (v : ℕ) → htonl e v < 2 ^ 32
unfolding htonl
htonl-lt little v = omega arith
htonl-lt big v = omega arith

pub length-be_bytes : (w v : ℕ) → length (be_bytes w v) ≡ w
unfolding be_bytes
length-be_bytes w v = length-reverse (le_bytes w v) ∙ length-le_bytes w v
