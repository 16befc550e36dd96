-- ===== src/Tests/JsonTests.antt =====
-- Runs of the JSON functions of entry/src/main/cpp/native_ssh_libssh2.cpp.
use tabssh_harmonyos.Prelude.{
  ◌≡◌, refl, true, if◌then◌else◌, arith, [], none, ◌∷◌, some, Bytes, codes, ◌+◌, ◌++◌, length,
}
use tabssh_harmonyos.Prelude.Int.{pos, negsuc}
use tabssh_harmonyos.Json.Find.{json_string, json_int}
use tabssh_harmonyos.Json.Parse.{code_point, unescape, parse_json_string}
use tabssh_harmonyos.Json.Escape.{escape_json}
use tabssh_harmonyos.Json.RoundTrip.{parse_json_string-escape_json}
use tabssh_harmonyos.Json.Result.{to_json}
use tabssh_harmonyos.Json.Utf8.{append_utf8, utf8_bytes}
use tabssh_harmonyos.Json.Utf8.Decode.{is_surrogate, decode_utf8, decode_utf8-utf8_bytes}

abbrev profile_text : Bytes
profile_text = codes "{\"host\" : \"port\", \"username\":\"a\\u0041\\n\",\"port\": -22 ,\"x\":1}"

username_found : json_string profile_text (codes "username") [] ≡ codes "aA\n"
unfolding json_string codes code_point unescape append_utf8
username_found = refl

port_found : json_int profile_text (codes "port") (pos 22) ≡ negsuc 21
unfolding json_int codes
port_found = refl

missing_found : json_int profile_text (codes "none") (pos 22) ≡ pos 22
unfolding json_int codes
missing_found = refl

printed :
    to_json (record { ok = true; code = negsuc 36; message = codes "a\"b"; payload = [] })
    ≡ codes "{\"ok\":true,\"code\":-37,\"message\":\"a\\\"b\",\"data\":\"\"}"
unfolding to_json
printed = refl

-- A quote, a backslash and a line end, between other text.
abbrev awkward : Bytes
awkward = b'a' ∷ b'"' ∷ b'\\' ∷ 10 ∷ 1 ∷ []

parse_json_string-escape_json_example :
    parse_json_string (b'{' ∷ b'"' ∷ (escape_json awkward ++ b'"' ∷ b'}' ∷ [])) 1
    ≡ some (awkward, 1 + length (escape_json awkward) + 2)
parse_json_string-escape_json_example =
    parse_json_string-escape_json (b'{' ∷ []) awkward (b'}' ∷ [])

-- The euro sign, and half of a pair.
decode_utf8-utf8_bytes_example :
    decode_utf8 (utf8_bytes 0x20ac ++ [])
    ≡ (if is_surrogate 0x20ac then none else some (0x20ac, []))
decode_utf8-utf8_bytes_example = decode_utf8-utf8_bytes 0x20ac [] (omega arith)

half_refused : decode_utf8 (utf8_bytes 0xd83d) ≡ none
unfolding decode_utf8 utf8_bytes
half_refused = refl
