-- ===== src/Tests/ProfileTests.antt =====
-- Runs of the base64, comparison and profile functions of
-- entry/src/main/cpp/native_ssh_libssh2.cpp.
use tabssh_harmonyos.Prelude.{
  ◌≡◌, ◌↔◌, ◌*◌, ◌+◌, ◌/◌, refl, true, [], ◌∷◌, Bytes, codes, equal, length, arith,
}
use tabssh_harmonyos.Prelude.Int.{pos, ◌≤ℤ◌, IsInt32}
use tabssh_harmonyos.Fingerprint.{base64, constant_time_equal}
use tabssh_harmonyos.Fingerprint.Base64.{decode64, decode64-base64, length-base64}
use tabssh_harmonyos.Fingerprint.Compare.{constant_time_equal_iff}
use tabssh_harmonyos.Profile.{ProfileConfig, parse_profile, invalid_profile_result}
use tabssh_harmonyos.Profile.Validity.{IsValid, invalid_profile_result_iff, parse_profile_bounds}

man : base64 (codes "Mano") ≡ codes "TWFubw"
unfolding base64 codes
man = refl

abbrev hash : Bytes
hash = 255 ∷ 0 ∷ 17 ∷ 128 ∷ []

decode64-base64_example : decode64 (base64 hash) ≡ hash
decode64-base64_example =
    decode64-base64 hash (omega arith, (omega arith, (omega arith, (omega arith, _))))

length-base64_example : length (base64 hash) ≡ (4 * length hash + 2) / 3
length-base64_example = length-base64 hash

constant_time_equal_iff_example :
    (constant_time_equal hash (255 ∷ 0 ∷ 17 ∷ []) ≡ true) ↔ (hash ≡ 255 ∷ 0 ∷ 17 ∷ [])
constant_time_equal_iff_example = constant_time_equal_iff hash (255 ∷ 0 ∷ 17 ∷ [])

-- A profile with a key but no path.
abbrev keyless : ProfileConfig
keyless = record {
  host = codes "h";
  port = pos 22;
  username = codes "u";
  auth_type = codes "privateKey";
  password = [];
  private_key_path = [];
  private_key_passphrase = [];
  terminal_type = codes "xterm";
  expected_host_key = [];
  keep_alive_seconds = pos 60;
  timeout_milliseconds = pos 15000;
}

keyless_refused : (invalid_profile_result keyless).code ≡ pos 1005
unfolding invalid_profile_result codes equal
keyless_refused = refl

invalid_profile_result_iff_example : ((invalid_profile_result keyless).ok ≡ true) ↔ IsValid keyless
invalid_profile_result_iff_example = invalid_profile_result_iff keyless

abbrev hasty : Bytes
hasty = codes "{\"port\":70000,\"timeoutMilliseconds\":-5}"

parse_profile_bounds_example :
    let p = (parse_profile hasty).0 in
    IsInt32 p.port
    × IsInt32 p.keep_alive_seconds
    × IsInt32 p.timeout_milliseconds
    × (pos 0 ≤ℤ p.keep_alive_seconds)
    × (pos 1000 ≤ℤ p.timeout_milliseconds)
    × ((parse_profile hasty).1 ≡ [])
parse_profile_bounds_example = parse_profile_bounds hasty
