-- ===== src/Util/Mac.antt =====
-- mac_convert_str_to_char of sflow/sflow_util.c: sscanf with "%x:%x:%x:%x:%x:%x". A variable whose
-- number is not there stays unwritten, and the loop behind reads all six.
use sflow.Common.{
  ℕ, zero, suc, ◌+◌, ◌-◌, ◌*◌, ◌/◌, ◌%◌, ◌^◌, ◌<◌, ◌≡◌, refl, ap, ◌∙◌, Bool, true, false, ◌&&◌,
  ◌||◌, List, [], ◌∷◌, Option, none, some, Outcome, ok, ◌>>=◌, fault, uninitialised, leb, ltb, ◌==◌,
  if◌then◌else◌, arith, ◌≤◌, ◌≢◌, length,
}
use sflow.Memory.Endian.{AreBytes}

-- '0' to '9', 'a' to 'f' and 'A' to 'F'
unfoldable pub hex_value : ℕ → Option ℕ
hex_value c =
    if leb 48 c && leb c 57
    then some (c - 48)
    else if leb 97 c && leb c 102
    then some (c - 87)
    else if leb 65 c && leb c 70
    then some (c - 55)
    else none

unfoldable pub hex_digits : ℕ → List ℕ → ℕ × List ℕ
hex_digits acc [] = (acc, [])
hex_digits acc (c ∷ s) = elim (hex_value c) [
  | none ↦ (acc, c ∷ s)
  | some d ↦ hex_digits (acc * 16 + d) s
]

-- White space, which %x skips
abbrev pub skip_blanks : List ℕ → List ℕ
skip_blanks [] = []
skip_blanks (c ∷ s) = elim (c == 32 || leb 9 c && leb c 13) [ true ↦ skip_blanks s | false ↦ c ∷ s ]

-- A sign, '-' being 45 and '+' 43
abbrev pub scan_sign : List ℕ → Bool × List ℕ
scan_sign [] = (false, [])
scan_sign (c ∷ s) = if c == 45 then (true, s) else if c == 43 then (false, s) else (false, c ∷ s)

-- "0x" or "0X"
abbrev pub skip_prefix : List ℕ → List ℕ
skip_prefix (c ∷ d ∷ s) = if c == 48 && (d == 120 || d == 88) then s else c ∷ d ∷ s
skip_prefix s = s

unfoldable pub hex_number : Bool → List ℕ → Option (ℕ × List ℕ)
hex_number negative [] = none
hex_number negative (c ∷ s) = elim (hex_value c) [
  | none ↦ none
  | some d ↦
      let (n, rest) = hex_digits d s in
      some ((if negative then 2 ^ 32 - n % 2 ^ 32 else n) % 2 ^ 32, rest)
]

-- The conversion %x
unfoldable pub scan_hex : List ℕ → Option (ℕ × List ℕ)
scan_hex s =
    let (negative, rest) = scan_sign (skip_blanks s) in hex_number negative (skip_prefix rest)

-- The conversions that are left, each but the last followed by ':', which is 58
unfoldable pub scan_mac : ℕ → List ℕ → List ℕ
scan_mac zero s = []
scan_mac (suc more) s = elim (scan_hex s) [
  | none ↦ []
  | some (n, []) ↦ n ∷ []
  | some (n, c ∷ rest) ↦ elim (c == 58) [ true ↦ n ∷ scan_mac more rest | false ↦ n ∷ [] ]
]

-- for (i = 0; i < 6; i++) buf[i] = (unsigned char)mac_int[i], with the rounds left
unfoldable pub store_mac : ℕ → List ℕ → Outcome (List ℕ)
store_mac zero mac_int = ok []
store_mac (suc n) [] = fault uninitialised
store_mac (suc n) (m ∷ mac_int) = do rest ← store_mac n mac_int; ok (m % 256 ∷ rest)

unfoldable pub mac_convert : List ℕ → Outcome (List ℕ)
mac_convert str = store_mac 6 (scan_mac 6 str)

-- The text of an address: two digits for each byte, between colons
abbrev pub hex_digit : ℕ → ℕ
hex_digit d = if ltb d 10 then d + 48 else d + 87

unfoldable pub mac_text : List ℕ → List ℕ
mac_text [] = []
mac_text (b ∷ []) = hex_digit (b / 16) ∷ hex_digit (b % 16) ∷ []
mac_text (b ∷ c ∷ bs) = hex_digit (b / 16) ∷ hex_digit (b % 16) ∷ 58 ∷ mac_text (c ∷ bs)

hex_value-hex_digit : (d : ℕ) → d < 16 → hex_value (hex_digit d) ≡ some d
unfolding hex_value
hex_value-hex_digit d h = ground arith

digit-range : (d : ℕ) → d < 16 → (48 ≤ hex_digit d) × (hex_digit d ≤ 102) × (hex_digit d ≢ 88)
digit-range d h = ground arith

skip_blanks-digit : (x : ℕ) (t : List ℕ) → 48 ≤ x → skip_blanks (x ∷ t) ≡ x ∷ t
skip_blanks-digit x t h = ground arith

scan_sign-digit : (x : ℕ) (t : List ℕ) → 48 ≤ x → scan_sign (x ∷ t) ≡ (false, x ∷ t)
scan_sign-digit x t h = ground arith

skip_prefix-digit : (x y : ℕ) (t : List ℕ) → y ≤ 102 → y ≢ 88 → skip_prefix (x ∷ y ∷ t) ≡ x ∷ y ∷ t
skip_prefix-digit x y t h n = ground arith

-- The end of the text, or what the format's ':' matches
abbrev pub Ends : List ℕ → Type 0
Ends [] = Unit {0}
Ends (c ∷ s) = c ≡ 58

hex_digits-Ends : (acc : ℕ) (s : List ℕ) → Ends s → hex_digits acc s ≡ (acc, s)
unfolding hex_digits hex_value
hex_digits-Ends acc [] h = refl
hex_digits-Ends acc (c ∷ s) h = rw h refl

hex_digits-digit :
    (acc c d : ℕ) (s : List ℕ)
    → hex_value c ≡ some d
    → hex_digits acc (c ∷ s) ≡ hex_digits (acc * 16 + d) s
unfolding hex_digits
hex_digits-digit acc c d s e = rw (e, hex_digits) refl

hex_number-digits :
    (x y d k : ℕ) (s : List ℕ)
    → hex_value x ≡ some d
    → hex_value y ≡ some k
    → Ends s
    → hex_number false (x ∷ y ∷ s) ≡ some ((d * 16 + k) % 2 ^ 32, s)
unfolding hex_number
hex_number-digits x y d k s ex ey ends =
    rw (ex, hex_digits-digit d y k s ey, hex_digits-Ends (d * 16 + k) s ends, hex_number) refl

-- The number that %x reads from two digits
scan_hex-digits :
    (b : ℕ) (s : List ℕ)
    → b < 256
    → Ends s
    → scan_hex (hex_digit (b / 16) ∷ hex_digit (b % 16) ∷ s) ≡ some (b, s)
unfolding scan_hex
scan_hex-digits b s h ends =
    let (lo_x, _, _) = digit-range (b / 16) (omega arith) in
    let (_, hi_y, n_y) = digit-range (b % 16) (omega arith) in
    let x = hex_digit (b / 16) in
    let y = hex_digit (b % 16) in
    let whole : (b / 16 * 16 + b % 16) % 2 ^ 32 ≡ b = omega arith in
    rw
      (
        skip_blanks-digit x (y ∷ s) lo_x,
        scan_sign-digit x (y ∷ s) lo_x,
        skip_prefix-digit x y s hi_y n_y,
      )
      (hex_number-digits x y (b / 16) (b % 16) s (hex_value-hex_digit (b / 16) (omega arith))
          (hex_value-hex_digit (b % 16) (omega arith)) ends
        ∙ ap (λ (n : ℕ). some (n, s)) whole)

scan_mac-text : (n : ℕ) (bs : List ℕ) → AreBytes bs → length bs ≡ n → scan_mac n (mac_text bs) ≡ bs
unfolding scan_mac mac_text
scan_mac-text zero [] h e = refl
scan_mac-text zero (b ∷ bs) h e = absurd (omega arith)
scan_mac-text (suc n) [] h e = absurd (omega arith)
scan_mac-text (suc n) (b ∷ []) h e = rw (scan_hex-digits b [] h.0 tt, scan_mac) refl
scan_mac-text (suc n) (b ∷ c ∷ bs) h e =
    rw
      (
        scan_hex-digits b (58 ∷ mac_text (c ∷ bs)) h.0 refl,
        scan_mac-text n (c ∷ bs) h.1 (omega arith),
        scan_mac,
      )
      refl

store_mac-bytes : (n : ℕ) (bs : List ℕ) → AreBytes bs → length bs ≡ n → store_mac n bs ≡ ok bs
unfolding store_mac
store_mac-bytes zero [] h e = refl
store_mac-bytes zero (b ∷ bs) h e = absurd (omega arith)
store_mac-bytes (suc n) [] h e = absurd (omega arith)
store_mac-bytes (suc n) (b ∷ bs) h e =
    let low : b % 256 ≡ b = omega (arith, h.0) in
    rw (store_mac-bytes n bs h.1 (omega arith), low) refl

-- mac_convert_str_to_char reads back any six bytes from their text of two hexadecimal digits each,
-- between colons.
pub mac_convert-mac_text :
    (bs : List ℕ) → AreBytes bs → length bs ≡ 6 → mac_convert (mac_text bs) ≡ ok bs
unfolding mac_convert
mac_convert-mac_text bs h six = rw (scan_mac-text 6 bs h six) (store_mac-bytes 6 bs h six)
