-- ===== src/Json/Find.antt =====
-- `FindJsonValue`, `JsonString` and `JsonInt` of entry/src/main/cpp/native_ssh_libssh2.cpp, over the
-- standard library's `std::string::find`, `std::isspace` and `std::strtol`.
use tabssh_harmonyos.Prelude.{
  ℕ, zero, suc, ◌+◌, ◌-◌, ◌*◌, Bool, ◌&&◌, ◌||◌, [], ◌∷◌, ◌++◌, Option, none, some, Bytes,
  starts_with, leb, ◌==◌, if◌then◌else◌, length, drop,
}
use tabssh_harmonyos.Prelude.Int.{ℤ, pos, negsuc, ltb_ℤ}
use tabssh_harmonyos.Json.Parse.{parse_json_string}

-- `json.find(token, position)`: the index of the first place at or behind the position, and the text
-- from there on. The text given is the text from the position on.
unfoldable pub find_token : Bytes → ℕ → Bytes → Option (ℕ × Bytes)
unfolding starts_with
find_token token position [] = if starts_with token [] then some (position, []) else none
find_token token position (c ∷ s) =
    if starts_with token (c ∷ s) then some (position, c ∷ s) else find_token token (position + 1) s

-- `std::isspace` in the C locale.
unfoldable pub is_space : ℕ → Bool
is_space c = c == b' ' || (leb 9 c && leb c 13)

-- `while (... isspace(json[cursor])) ++cursor;`
unfoldable pub skip_space : ℕ → Bytes → ℕ × Bytes
unfolding is_space
skip_space cursor [] = (cursor, [])
skip_space cursor (c ∷ s) = if is_space c then skip_space (cursor + 1) s else (cursor, c ∷ s)

-- The test of the byte behind a key: the index of the value, if it is a colon.
unfoldable pub after_key : ℕ × Bytes → Option ℕ
unfolding skip_space
after_key (cursor, []) = none
after_key (cursor, c ∷ s) = if c == b':' then some (skip_space (cursor + 1) s).0 else none

-- The loop over the places of the token, on fuel; `none` is `npos`.
unfoldable pub find_loop : ℕ → Bytes → ℕ → Bytes → Option ℕ
unfolding find_token after_key
find_loop zero token position s = none
find_loop (suc fuel) token position s = elim (find_token token position s) [
  | none ↦ none
  | some (place, t) ↦
      let behind = drop (length token) t in
      elim (after_key (skip_space (place + length token) behind)) [
        | some start ↦ some start
        | none ↦ find_loop fuel token (place + length token) behind
      ]
]

abbrev pub quoted : Bytes → Bytes
quoted key = b'"' ∷ (key ++ b'"' ∷ [])

unfoldable pub find_json_value : Bytes → Bytes → Option ℕ
unfolding find_loop
find_json_value json key = find_loop (suc (length json)) (quoted key) 0 json

-- `ParseJsonString(...) ? value : fallback`.
unfoldable pub string_at : Bytes → Bytes → Option ℕ → Bytes
unfolding parse_json_string
string_at json fallback none = fallback
string_at json fallback (some start) = elim (parse_json_string json start) [
  | none ↦ fallback
  | some (value, end) ↦ value
]

unfoldable pub json_string : Bytes → Bytes → Bytes → Bytes
unfolding find_json_value string_at
json_string json key fallback = string_at json fallback (find_json_value json key)

-- `std::strtol` in base 10: the digits' value with the sign, `none` if there is no digit. A value
-- outside the range of a long is not clamped here; it is outside the range of an int32_t either way.
unfoldable pub read_digits : ℕ → Bytes → ℕ
read_digits acc [] = acc
read_digits acc (c ∷ s) =
    let rest = read_digits (acc * 10 + (c - b'0')) s in
    if leb b'0' c && leb c b'9' then rest else acc

unfoldable pub read_unsigned : Bytes → Option ℕ
unfolding read_digits
read_unsigned [] = none
read_unsigned (c ∷ s) = if leb b'0' c && leb c b'9' then some (read_digits 0 (c ∷ s)) else none

abbrev pub negated : ℕ → ℤ
negated zero = pos 0
negated (suc n) = negsuc n

abbrev map_to {ℓ κ} : {A : Type ℓ} {B : Type κ} → (A → B) → Option A → Option B
map_to f none = none
map_to f (some a) = some (f a)

unfoldable pub read_signed : Bytes → Option ℤ
unfolding read_unsigned
read_signed [] = none
read_signed (c ∷ s) =
    if c == b'-'
    then map_to negated (read_unsigned s)
    else if c == b'+'
    then map_to pos (read_unsigned s)
    else map_to pos (read_unsigned (c ∷ s))

unfoldable pub strtol : Bytes → Option ℤ
unfolding read_signed skip_space
strtol s = read_signed (skip_space 0 s).1

-- The range test of `JsonInt`.
unfoldable pub int32_or : ℤ → Option ℤ → ℤ
int32_or fallback none = fallback
int32_or fallback (some value) =
    if ltb_ℤ value (negsuc 2147483647) || ltb_ℤ (pos 2147483647) value then fallback else value

unfoldable pub json_int : Bytes → Bytes → ℤ → ℤ
unfolding find_json_value strtol int32_or
json_int json key fallback = elim (find_json_value json key) [
  | none ↦ fallback
  | some start ↦ int32_or fallback (strtol (drop start json))
]
