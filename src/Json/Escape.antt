-- ===== src/Json/Escape.antt =====
-- `EscapeJson` of entry/src/main/cpp/native_ssh_libssh2.cpp.
use tabssh_harmonyos.Prelude.{ℕ, ◌+◌, ◌-◌, ◌/◌, ◌%◌, [], ◌∷◌, ◌++◌, Bytes, ltb, ◌==◌, if◌then◌else◌}

-- `hex[n]` for a number below 16.
pub hex_char : ℕ → ℕ
hex_char n = if ltb n 10 then b'0' + n else b'a' + (n - 10)

-- What `EscapeJson` writes for one byte.
unfoldable pub escape_byte : ℕ → Bytes
unfolding hex_char
escape_byte c =
    if c == b'\\'
    then b'\\' ∷ b'\\' ∷ []
    else if c == b'"'
    then b'\\' ∷ b'"' ∷ []
    else if c == 8
    then b'\\' ∷ b'b' ∷ []
    else if c == 12
    then b'\\' ∷ b'f' ∷ []
    else if c == b'\n'
    then b'\\' ∷ b'n' ∷ []
    else if c == b'\r'
    then b'\\' ∷ b'r' ∷ []
    else if c == b'\t'
    then b'\\' ∷ b't' ∷ []
    else if ltb c 32
    then b'\\' ∷ b'u' ∷ b'0' ∷ b'0' ∷ hex_char (c / 16 % 16) ∷ hex_char (c % 16) ∷ []
    else c ∷ []

unfoldable pub escape_json : Bytes → Bytes
unfolding escape_byte
escape_json [] = []
escape_json (c ∷ text) = escape_byte c ++ escape_json text
