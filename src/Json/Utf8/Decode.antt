-- ===== src/Json/Utf8/Decode.antt =====
-- What `AppendUtf8` pushes, against a decoder of UTF-8 (RFC 3629) for code points below 2 ^ 16.
use Prim.Native.Nat.{bit_or}
use native.Mathlib.Decide.{dec_le}
use tabssh_harmonyos.Prelude.{
  ℕ, ◌+◌, ◌-◌, ◌*◌, ◌/◌, ◌%◌, ◌≤◌, ◌<◌, ◌≡◌, ap, ◌∙◌, Bool, false, not, ◌&&◌, [], ◌∷◌, ◌++◌, Option,
  none, some, Bytes, arith, leb, if◌then◌else◌,
}
use tabssh_harmonyos.Prelude.Bits.{Fits-sixteen, Fits-sextet}
use tabssh_harmonyos.Json.Utf8.{utf8_bytes}

-- The code points that UTF-16 uses in pairs; UTF-8 has no form for them.
unfoldable pub is_surrogate : ℕ → Bool
is_surrogate c = leb 0xd800 c && leb c 0xdfff

unfoldable pub is_tail : ℕ → Bool
is_tail b = leb 0x80 b && leb b 0xbf

unfoldable pub two_bytes : ℕ → Bytes → Option (ℕ × Bytes)
unfolding is_tail
two_bytes a (b ∷ s) = if is_tail b then some ((a - 0xc0) * 64 + (b - 0x80), s) else none
two_bytes a [] = none

-- Overlong forms and surrogates are refused.
unfoldable pub three_bytes : ℕ → Bytes → Option (ℕ × Bytes)
unfolding is_tail is_surrogate
three_bytes a (b ∷ c ∷ s) =
    let value = (a - 0xe0) * 4096 + (b - 0x80) * 64 + (c - 0x80) in
    if is_tail b && is_tail c && leb 0x800 value && not (is_surrogate value)
    then some (value, s)
    else none
three_bytes a _ = none

unfoldable pub decode_utf8 : Bytes → Option (ℕ × Bytes)
unfolding two_bytes three_bytes
decode_utf8 [] = none
decode_utf8 (a ∷ s) =
    if leb a 0x7f
    then some (a, s)
    else if leb 0xc2 a && leb a 0xdf
    then two_bytes a s
    else if leb 0xe0 a && leb a 0xef
    then three_bytes a s
    else none

or_tail : (x : ℕ) → x < 64 → bit_or 0x80 x ≡ 128 + x
or_tail x h = Fits-sextet 2 x h

or_two : (x : ℕ) → x < 64 → bit_or 0xc0 x ≡ 192 + x
or_two x h = Fits-sextet 3 x h

or_three : (x : ℕ) → x < 16 → bit_or 0xe0 x ≡ 224 + x
or_three x h = Fits-sixteen 14 x h

short_form : (c : ℕ) → c ≤ 0x7f → utf8_bytes c ≡ c ∷ []
unfolding utf8_bytes
short_form c h = ground arith

middle_form : (c : ℕ) → 0x7f < c → c ≤ 0x7ff → utf8_bytes c ≡ (192 + c / 64) ∷ (128 + c % 64) ∷ []
unfolding utf8_bytes
middle_form c h k =
    let e1 = or_two (c / 64) (omega arith) in
    let e2 = or_tail (c % 64) (omega arith) in ground (arith, e1, e2)

long_form :
    (c : ℕ)
    → 0x7ff < c
    → c < 65536
    → utf8_bytes c ≡ (224 + c / 4096) ∷ (128 + c / 64 % 64) ∷ (128 + c % 64) ∷ []
unfolding utf8_bytes
long_form c h k =
    let e1 = or_three (c / 4096) (omega arith) in
    let e2 = or_tail (c / 64 % 64) (omega arith) in
    let e3 = or_tail (c % 64) (omega arith) in
    let e4 : bit_or 0xe0 (c / 4096) % 256 ≡ 224 + c / 4096 = omega (arith, e1) in
    ground (arith, e2, e3, e4)

decoded_short : (c : ℕ) (rest : Bytes) → c ≤ 0x7f → decode_utf8 (c ∷ rest) ≡ some (c, rest)
unfolding decode_utf8
decoded_short c rest h = ground arith

decoded_two :
    (q r : ℕ) (rest : Bytes)
    → 2 ≤ q
    → q < 32
    → r < 64
    → decode_utf8 ((192 + q) ∷ (128 + r) ∷ rest) ≡ some (q * 64 + r, rest)
unfolding decode_utf8
decoded_two q r rest h k l =
    let e1 : (192 + q) - 192 ≡ q = omega arith in
    let e2 : (128 + r) - 128 ≡ r = omega arith in rw (e1, e2) (ground arith)

decoded_three :
    (p q r : ℕ) (rest : Bytes)
    → p < 16
    → q < 64
    → r < 64
    → 0x800 ≤ p * 4096 + q * 64 + r
    → decode_utf8 ((224 + p) ∷ (128 + q) ∷ (128 + r) ∷ rest)
      ≡ (if is_surrogate (p * 4096 + q * 64 + r) then none else some (p * 4096 + q * 64 + r, rest))
unfolding decode_utf8
decoded_three p q r rest h k l big =
    let e1 : (224 + p) - 224 ≡ p = omega arith in
    let e2 : (128 + q) - 128 ≡ q = omega arith in
    let e3 : (128 + r) - 128 ≡ r = omega arith in rw (e1, e2, e3) (ground arith)

no_surrogate : (c : ℕ) → c ≤ 0x7ff → is_surrogate c ≡ false
unfolding is_surrogate
no_surrogate c h = ground arith

-- After the bytes that `AppendUtf8` pushes for a code point below 2 ^ 16, a strict decoder reads that
-- code point back and leaves what follows, except on the surrogates, whose bytes it refuses.
pub decode_utf8-utf8_bytes :
    (c : ℕ) (rest : Bytes)
    → c < 65536
    → decode_utf8 (utf8_bytes c ++ rest) ≡ (if is_surrogate c then none else some (c, rest))
decode_utf8-utf8_bytes c rest small = elim (dec_le c 0x7f) [
  | yes one ↦ rw (no_surrogate c (omega arith), short_form c one) (decoded_short c rest one)
  | no above ↦ elim (dec_le c 0x7ff) [
    | yes two ↦
        let joined : c / 64 * 64 + c % 64 ≡ c = omega arith in
        rw (no_surrogate c (omega arith), middle_form c (omega arith) two)
          (decoded_two (c / 64) (c % 64) rest (omega arith) (omega arith) (omega arith)
            ∙ ap (λ v. some (v, rest)) joined)
    | no large ↦
        let joined : c / 4096 * 4096 + c / 64 % 64 * 64 + c % 64 ≡ c = omega arith in
        rw (long_form c (omega arith) small) (
          decoded_three (c / 4096) (c / 64 % 64) (c % 64) rest (omega arith) (omega arith)
            (omega arith) (omega arith)
          ∙ ap (λ v. if is_surrogate v then none else some (v, rest)) joined)
  ]
]
