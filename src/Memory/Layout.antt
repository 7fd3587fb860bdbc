-- ===== src/Memory/Layout.antt =====
-- C structures on an LP64 machine, as the list of their fields.
use sflow.Common.{
  ℕ, ◌+◌, ◌≡◌, refl, List, [], ◌∷◌, ◌++◌, arith, length, length-append, take, replicate,
  length-take, length-replicate,
}
use sflow.Memory.Endian.{Endian, image, length-image}

-- sizeof (void *), SFLOW_PSIZE
abbrev pub psize : ℕ
psize = 8

pub data Field : Type 0 where
  u32 u64 : ℕ → Field
  chars : ℕ → List ℕ → Field
  pad : ℕ → Field

-- The bytes of a `char [n]` that holds a string: the rest is 0, and what is too long is cut.
abbrev pub char_array : ℕ → List ℕ → List ℕ
char_array n bs = take n (bs ++ replicate n 0)

unfoldable pub field_image : Endian → Field → List ℕ
field_image e (u32 v) = image e 4 v
field_image e (u64 v) = image e 8 v
field_image e (chars n bs) = char_array n bs
field_image e (pad n) = replicate n 0

unfoldable pub field_size : Field → ℕ
field_size (u32 v) = 4
field_size (u64 v) = 8
field_size (chars n bs) = n
field_size (pad n) = n

-- The memory of a structure, which `calloc` cleared: its padding is 0.
unfoldable pub struct_image : Endian → List Field → List ℕ
unfolding field_image
struct_image e [] = []
struct_image e (f ∷ fs) = field_image e f ++ struct_image e fs

unfoldable pub struct_size : List Field → ℕ
unfolding field_size
struct_size [] = 0
struct_size (f ∷ fs) = field_size f + struct_size fs

pub length-char_array : (n : ℕ) (bs : List ℕ) → length (char_array n bs) ≡ n
length-char_array n bs = omega (
  arith,
  length-take n (bs ++ replicate n 0),
  length-append bs (replicate n 0),
  length-replicate {0} {A = ℕ} n 0,
)

length-field_image : (e : Endian) (f : Field) → length (field_image e f) ≡ field_size f
unfolding field_image field_size
length-field_image e (u32 v) = length-image e 4 v
length-field_image e (u64 v) = length-image e 8 v
length-field_image e (chars n bs) = length-char_array n bs
length-field_image e (pad n) = length-replicate n 0

pub length-struct_image :
    (e : Endian) (fs : List Field) → length (struct_image e fs) ≡ struct_size fs
unfolding struct_image struct_size
length-struct_image e [] = refl
length-struct_image e (f ∷ fs) = omega (
  arith,
  length-append (field_image e f) (struct_image e fs),
  length-field_image e f,
  length-struct_image e fs,
)
