-- ===== src/Json/Parse.antt =====
-- `ParseJsonString` of entry/src/main/cpp/native_ssh_libssh2.cpp. The text from `index` on is a list of
-- its own beside the index; `none` is the source's `false`. The loop takes fuel, one for each byte.
use Prim.Native.Nat.{bit_or}
use tabssh_harmonyos.Prelude.{
  ℕ, zero, suc, ◌+◌, ◌-◌, ◌*◌, not, ◌&&◌, [], ◌∷◌, ◌++◌, Option, none, some, Bytes, leb, ◌==◌,
  if◌then◌else◌, length, drop,
}
use tabssh_harmonyos.Prelude.Maybe.{◌>>=◌}
use tabssh_harmonyos.Json.Utf8.{append_utf8}

-- The digits of a \u escape.
unfoldable pub hex_digit : ℕ → Option ℕ
hex_digit c =
    if leb b'0' c && leb c b'9'
    then some (c - b'0')
    else if leb b'a' c && leb c b'f'
    then some (c - b'a' + 10)
    else if leb b'A' c && leb c b'F'
    then some (c - b'A' + 10)
    else none

-- The byte that a one-letter escape stands for.
unfoldable pub unescape : ℕ → Option ℕ
unescape e =
    if e == b'"'
    then some b'"'
    else if e == b'\\'
    then some b'\\'
    else if e == b'/'
    then some b'/'
    else if e == b'b'
    then some 8
    else if e == b'f'
    then some 12
    else if e == b'n'
    then some b'\n'
    else if e == b'r'
    then some b'\r'
    else if e == b't'
    then some b'\t'
    else none

-- `codePoint <<= 4; codePoint |= digit`, for the digits of the list.
unfoldable pub code_point : ℕ → Bytes → Option ℕ
unfolding hex_digit
code_point acc [] = some acc
code_point acc (c ∷ cs) = do d ← hex_digit c; code_point (bit_or (acc * 16) d) cs

-- The rest of the loop, from an index with the value so far and the text at the index.
abbrev pub Rest : Type 0
Rest = ℕ → Bytes → Bytes → Option (Bytes × ℕ)

-- `case 'u'`, at the index of the `u`.
unfoldable pub parse_unicode : Rest → ℕ → Bytes → Bytes → Option (Bytes × ℕ)
parse_unicode rest index value (a ∷ b ∷ c ∷ d ∷ s) = do
  cp ← code_point 0 (a ∷ b ∷ c ∷ d ∷ [])
  rest (index + 5) (append_utf8 value cp) s
parse_unicode rest index value _ = none

-- The `switch` on the byte behind a backslash, at the index of that byte.
unfoldable pub parse_escape : Rest → ℕ → Bytes → Bytes → Option (Bytes × ℕ)
unfolding parse_unicode
parse_escape rest index value [] = none
parse_escape rest index value (e ∷ s) =
    if e == b'u'
    then parse_unicode rest index value s
    else unescape e >>= λ d. rest (index + 1) (value ++ d ∷ []) s

-- The body of the loop.
unfoldable pub parse_char : Rest → ℕ → Bytes → ℕ → Bytes → Option (Bytes × ℕ)
unfolding parse_escape
parse_char rest index value character s =
    if character == b'"'
    then some (value, index + 1)
    else if not (character == b'\\')
    then rest (index + 1) (value ++ character ∷ []) s
    else parse_escape rest (index + 1) value s

unfoldable pub parse_loop : ℕ → Rest
unfolding parse_char
parse_loop zero index value s = none
parse_loop (suc fuel) index value [] = none
parse_loop (suc fuel) index value (character ∷ s) =
    parse_char (parse_loop fuel) index value character s

-- The test of the opening quote, on the text from `start` on.
unfoldable pub parse_opened : ℕ → ℕ → Bytes → Option (Bytes × ℕ)
unfolding parse_loop
parse_opened fuel start [] = none
parse_opened fuel start (c ∷ s) = if c == b'"' then parse_loop fuel (start + 1) [] s else none

-- The value of the string that begins at `start`, and the index behind its closing quote.
unfoldable pub parse_json_string : Bytes → ℕ → Option (Bytes × ℕ)
unfolding parse_opened
parse_json_string json start = parse_opened (length json) start (drop start json)
