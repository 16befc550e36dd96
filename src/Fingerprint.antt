-- ===== src/Fingerprint.antt =====
-- Host key fingerprints of entry/src/main/cpp/native_ssh_libssh2.cpp: `Base64` and `ConstantTimeEqual`
-- (here, with proofs in Base64 and Compare).
pub mod Base64
pub mod Compare
use Prim.Native.Nat.{bit_or, bit_xor}
use tabssh_harmonyos.Prelude.{
  ℕ, zero, suc, ◌+◌, ◌*◌, ◌/◌, ◌%◌, Bool, [], ◌∷◌, ◌++◌, Bytes, codes, ◌==◌, length,
}

-- `data[index]`, 0 out of range.
unfoldable pub byte_at : Bytes → ℕ → ℕ
byte_at [] i = 0
byte_at (c ∷ s) zero = c
byte_at (c ∷ s) (suc i) = byte_at s i

-- `alphabet[n]`.
unfoldable pub alphabet : ℕ → ℕ
unfolding byte_at codes
alphabet n = byte_at (codes "ABCDEFGHIJKLMNOPQRSTUVWXYZabcdefghijklmnopqrstuvwxyz0123456789+/") n

-- The block of up to three bytes; a missing byte adds nothing.
unfoldable pub block : ℕ → ℕ → ℕ → ℕ
block a b c = bit_or (bit_or (a * 65536) (b * 256)) c

-- The four characters of a block.
abbrev pub first : ℕ → ℕ
first n = alphabet (n / 262144 % 64)

abbrev pub second : ℕ → ℕ
second n = alphabet (n / 4096 % 64)

abbrev pub third : ℕ → ℕ
third n = alphabet (n / 64 % 64)

abbrev pub fourth : ℕ → ℕ
fourth n = alphabet (n % 64)

-- One round for each three bytes; the last round may have one or two.
unfoldable pub base64 : Bytes → Bytes
unfolding block alphabet
base64 [] = []
base64 (a ∷ []) = let n = block a 0 0 in first n ∷ second n ∷ []
base64 (a ∷ b ∷ []) = let n = block a b 0 in first n ∷ second n ∷ third n ∷ []
base64 (a ∷ b ∷ c ∷ rest) =
    let n = block a b c in first n ∷ second n ∷ third n ∷ fourth n ∷ base64 rest

-- The loop of `ConstantTimeEqual` from an index on, with the bytes that are left of both texts.
unfoldable pub accumulate : ℕ → Bytes → Bytes → ℕ
accumulate difference [] [] = difference
accumulate difference (a ∷ left) [] = accumulate (bit_or difference (bit_xor a 0)) left []
accumulate difference [] (b ∷ right) = accumulate (bit_or difference (bit_xor 0 b)) [] right
accumulate difference (a ∷ left) (b ∷ right) =
    accumulate (bit_or difference (bit_xor a b)) left right

unfoldable pub constant_time_equal : Bytes → Bytes → Bool
unfolding accumulate
constant_time_equal left right = accumulate (bit_xor (length left) (length right)) left right == 0
