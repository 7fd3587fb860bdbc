-- ===== src/Util/Hyper.antt =====
-- `htonH` of sflow/sflow_util.c: the byte swap of a 64-bit number through a union, with the
-- machine's byte order found out at the first call and kept in a static variable.
use sflow.Common.{ℕ, ◌≡◌, refl, ◌⊎◌, inl, inr, List, arith, set, ltb, ◌==◌, if◌then◌else◌, get_or}
use sflow.Memory.Endian.{Endian, little, big, image, value, le_bytes, be_bytes, le_bytes-le_value}

-- temp = buf.chars[i]; buf.chars[i] = buf.chars[j]; buf.chars[j] = temp;
swap : ℕ → ℕ → List ℕ → List ℕ
swap i j chars = set (set chars i (get_or chars j 0)) j (get_or chars i 0)

swap_chars : List ℕ → List ℕ
unfolding swap
swap_chars chars = swap 3 4 (swap 2 5 (swap 1 6 (swap 0 7 chars)))

-- `endian_type` is 0 before the first call, 1 on a big-endian and 2 on a little-endian machine.
unfoldable pub detect : Endian → ℕ
unfolding image
detect e = if ltb 0 (get_or (image e 8 1) 7 0) then 1 else 2

-- A call with the static variable as a state.
unfoldable pub hton_h_call : Endian → ℕ → ℕ → ℕ × ℕ
unfolding swap_chars detect image value
hton_h_call e endian_type num =
    let known = if endian_type == 0 then detect e else endian_type in
    if known == 2 then (known, value e (swap_chars (image e 8 num))) else (known, num)

-- What the first call returns.
unfoldable pub hton_h : Endian → ℕ → ℕ
unfolding hton_h_call
hton_h e num = (hton_h_call e 0 num).1

image-swap_chars :
    (v : ℕ) → image little 8 (value little (swap_chars (le_bytes 8 v))) ≡ be_bytes 8 v
unfolding swap_chars image value le_bytes
image-swap_chars v = le_bytes-le_value (swap_chars (le_bytes 8 v)) (omega arith)

abbrev pub Known : Endian → ℕ → Type 0
Known e endian_type = (endian_type ≡ 0) ⊎ (endian_type ≡ detect e)

-- On either machine, and whether or not htonH was called before, the number it returns lies in
-- memory with its highest byte first, and after the call the byte order is known.
pub hton_h_call_lem :
    (e : Endian) (endian_type v : ℕ)
    → Known e endian_type
    → (image e 8 (hton_h_call e endian_type v).1 ≡ be_bytes 8 v)
      × ((hton_h_call e endian_type v).0 ≡ detect e)
unfolding hton_h_call
hton_h_call_lem little st v (inl h) = rw h (image-swap_chars v, refl)
hton_h_call_lem little st v (inr h) = rw h (image-swap_chars v, refl)
hton_h_call_lem big st v (inl h) = rw h (refl, refl)
hton_h_call_lem big st v (inr h) = rw h (refl, refl)

pub image-hton_h : (e : Endian) (v : ℕ) → image e 8 (hton_h e v) ≡ be_bytes 8 v
unfolding hton_h
image-hton_h e v = (hton_h_call_lem e 0 v (inl refl)).0
