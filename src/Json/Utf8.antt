-- ===== src/Json/Utf8.antt =====
-- `AppendUtf8` of entry/src/main/cpp/native_ssh_libssh2.cpp: the code points of a \u escape, which
-- are below 2 ^ 16. A shift to the right is a division, a mask of k ones a remainder.
pub mod Decode
use Prim.Native.Nat.{bit_or}
use tabssh_harmonyos.Prelude.{ℕ, ◌/◌, ◌%◌, [], ◌∷◌, ◌++◌, Bytes, leb, if◌then◌else◌}

-- What is pushed for a code point; `static_cast<char>` keeps the low eight bits.
unfoldable pub utf8_bytes : ℕ → Bytes
utf8_bytes code_point =
    if leb code_point 0x7f
    then code_point ∷ []
    else if leb code_point 0x7ff
    then bit_or 0xc0 (code_point / 64) ∷ bit_or 0x80 (code_point % 64) ∷ []
    else bit_or 0xe0 (code_point / 4096) % 256
      ∷ bit_or 0x80 (code_point / 64 % 64)
      ∷ bit_or 0x80 (code_point % 64)
      ∷ []

unfoldable pub append_utf8 : Bytes → ℕ → Bytes
unfolding utf8_bytes
append_utf8 output code_point = output ++ utf8_bytes code_point
