-- ===== src/Fingerprint/Base64.antt =====
-- `Base64` against the decoder of the base 64 alphabet (RFC 4648, without padding).
use tabssh_harmonyos.Prelude.{
  ℕ, ◌+◌, ◌-◌, ◌*◌, ◌/◌, ◌%◌, ◌<◌, ◌≡◌, refl, ◌∙◌, ◌&&◌, true, [], ◌∷◌, arith, Bytes, AreBytes, leb,
  ◌==◌, ==_iff, if◌then◌else◌, length,
}
use tabssh_harmonyos.Prelude.Bits.{holds_to, holds_to_at, Fits-byte, Fits-word}
use tabssh_harmonyos.Fingerprint.{alphabet, block, first, second, third, fourth, base64}

-- The six bits that a character stands for.
unfoldable pub sextet : ℕ → ℕ
sextet c =
    if leb b'A' c && leb c b'Z'
    then c - b'A'
    else if leb b'a' c && leb c b'z'
    then c - b'a' + 26
    else if leb b'0' c && leb c b'9'
    then c - b'0' + 52
    else if c == b'+'
    then 62
    else 63

-- Two, three or four characters give one, two or three bytes.
unfoldable pub decode64 : Bytes → Bytes
unfolding sextet
decode64 [] = []
decode64 (p ∷ []) = []
decode64 (p ∷ q ∷ []) = (sextet p * 4 + sextet q / 16) ∷ []
decode64 (p ∷ q ∷ r ∷ []) =
    (sextet p * 4 + sextet q / 16) ∷ (sextet q % 16 * 16 + sextet r / 4) ∷ []
decode64 (p ∷ q ∷ r ∷ s ∷ rest) =
    (sextet p * 4 + sextet q / 16)
    ∷ (sextet q % 16 * 16 + sextet r / 4)
    ∷ (sextet r % 4 * 64 + sextet s)
    ∷ decode64 rest

alphabet_table : holds_to (λ n. sextet (alphabet n) == n) 63 ≡ true
unfolding holds_to sextet alphabet
alphabet_table = refl

pub sextet-alphabet : (n : ℕ) → n < 64 → sextet (alphabet n) ≡ n
sextet-alphabet n h =
    (==_iff _ n).0 (holds_to_at (λ n. sextet (alphabet n) == n) 63 n alphabet_table (omega arith))

block-eq-sum : (a b c : ℕ) → b < 256 → c < 256 → block a b c ≡ a * 65536 + b * 256 + c
unfolding block
block-eq-sum a b c hb hc =
    let inner : a * 65536 + b * 256 ≡ (a * 256 + b) * 256 = omega arith in
    rw (Fits-word a (b * 256) (omega arith), inner) (Fits-byte (a * 256 + b) c hc ∙ omega arith)

module _ (a b c : ℕ) (ha : a < 256) (hb : b < 256) (hc : c < 256) where
  first_byte : sextet (first (block a b c)) * 4 + sextet (second (block a b c)) / 16 ≡ a
  first_byte = omega (
    arith,
    block-eq-sum a b c hb hc,
    sextet-alphabet (block a b c / 262144 % 64) (omega arith),
    sextet-alphabet (block a b c / 4096 % 64) (omega arith),
  )

  second_byte : sextet (second (block a b c)) % 16 * 16 + sextet (third (block a b c)) / 4 ≡ b
  second_byte = omega (
    arith,
    block-eq-sum a b c hb hc,
    sextet-alphabet (block a b c / 4096 % 64) (omega arith),
    sextet-alphabet (block a b c / 64 % 64) (omega arith),
  )

  third_byte : sextet (third (block a b c)) % 4 * 64 + sextet (fourth (block a b c)) ≡ c
  third_byte = omega (
    arith,
    block-eq-sum a b c hb hc,
    sextet-alphabet (block a b c / 64 % 64) (omega arith),
    sextet-alphabet (block a b c % 64) (omega arith),
  )

-- Every byte string can be read back from its encoding, so two hashes with one encoding are equal.
pub decode64-base64 : (text : Bytes) → AreBytes text → decode64 (base64 text) ≡ text
unfolding decode64 base64
decode64-base64 [] h = refl
decode64-base64 (a ∷ []) h = rw (first_byte a 0 0 h.0 (omega arith) (omega arith))
decode64-base64 (a ∷ b ∷ []) h =
    rw (first_byte a b 0 h.0 h.1.0 (omega arith), second_byte a b 0 h.0 h.1.0 (omega arith))
decode64-base64 (a ∷ b ∷ c ∷ rest) h = rw (
  first_byte a b c h.0 h.1.0 h.1.1.0,
  second_byte a b c h.0 h.1.0 h.1.1.0,
  third_byte a b c h.0 h.1.0 h.1.1.0,
  decode64-base64 rest h.1.1.1,
)

-- The encoding has the length that the source reserves, less the padding: four characters for each
-- three bytes, rounded up.
pub length-base64 : (text : Bytes) → length (base64 text) ≡ (4 * length text + 2) / 3
unfolding base64
length-base64 [] = omega arith
length-base64 (a ∷ []) = omega arith
length-base64 (a ∷ b ∷ []) = omega arith
length-base64 (a ∷ b ∷ c ∷ rest) = omega (arith, length-base64 rest)
