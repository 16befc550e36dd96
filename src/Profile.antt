-- ===== src/Profile.antt =====
-- `ProfileConfig`, `ParseProfile` and `InvalidProfileResult` of
-- entry/src/main/cpp/native_ssh_libssh2.cpp. `SecureClear`, which also writes zeros over the memory
-- of a text before it empties it, appears by its result, the empty text.
pub mod Validity
use tabssh_harmonyos.Prelude.{
  ◌&&◌, ◌||◌, not, Bool, true, false, [], ◌∷◌, Bytes, codes, equal, is_empty, if◌then◌else◌,
}
use tabssh_harmonyos.Prelude.Int.{ℤ, pos, negsuc, ltb_ℤ, max_ℤ}
use tabssh_harmonyos.Json.Find.{json_string, json_int}
use tabssh_harmonyos.Json.Result.{NativeResult}

abbrev pub host_key_unknown : ℤ
host_key_unknown = pos 1001

abbrev pub host_key_changed : ℤ
host_key_changed = pos 1002

abbrev pub authentication_failed : ℤ
authentication_failed = pos 1003

abbrev pub timeout : ℤ
timeout = pos 1004

abbrev pub invalid_profile : ℤ
invalid_profile = pos 1005

abbrev pub not_connected : ℤ
not_connected = pos 1006

pub record ProfileConfig : Type 0 where
  pub host : Bytes
  pub port : ℤ
  pub username : Bytes
  pub auth_type : Bytes
  pub password : Bytes
  pub private_key_path : Bytes
  pub private_key_passphrase : Bytes
  pub terminal_type : Bytes
  pub expected_host_key : Bytes
  pub keep_alive_seconds : ℤ
  pub timeout_milliseconds : ℤ

unfoldable pub secure_clear : Bytes → Bytes
secure_clear value = []

unfoldable pub clear_credentials : ProfileConfig → ProfileConfig
unfolding secure_clear
clear_credentials profile = record profile {
  password = secure_clear profile.password;
  private_key_passphrase = secure_clear profile.private_key_passphrase;
}

-- The profile, and what is left of the text that it was read from.
unfoldable pub parse_profile : Bytes → ProfileConfig × Bytes
unfolding secure_clear
parse_profile json = (
  record {
    host = json_string json (codes "host") [];
    port = json_int json (codes "port") (pos 22);
    username = json_string json (codes "username") [];
    auth_type = json_string json (codes "authType") (codes "password");
    password = json_string json (codes "password") [];
    private_key_path = json_string json (codes "privateKeyPath") [];
    private_key_passphrase = json_string json (codes "privateKeyPassphrase") [];
    terminal_type = json_string json (codes "terminalType") (codes "xterm-256color");
    expected_host_key = json_string json (codes "hostKeyFingerprint") [];
    keep_alive_seconds = max_ℤ (pos 0) (json_int json (codes "keepAliveSeconds") (pos 60));
    timeout_milliseconds =
        max_ℤ (pos 1000) (json_int json (codes "timeoutMilliseconds") (pos 15000));
  },
  secure_clear json,
)

abbrev pub success : Bytes → Bytes → NativeResult
success message payload = record { ok = true; code = pos 0; message = message; payload = payload }

abbrev pub failure : ℤ → Bytes → Bytes → NativeResult
failure code message payload = record {
  ok = false;
  code = code;
  message = message;
  payload = payload;
}

unfoldable pub invalid_profile_result : ProfileConfig → NativeResult
invalid_profile_result profile =
    if is_empty profile.host
    then failure invalid_profile (codes "host is required") []
    else if is_empty profile.username
    then failure invalid_profile (codes "username is required") []
    else if ltb_ℤ profile.port (pos 1) || ltb_ℤ (pos 65535) profile.port
    then failure invalid_profile (codes "port is out of range") []
    else if equal profile.auth_type (codes "privateKey") && is_empty profile.private_key_path
    then failure invalid_profile (codes "private key path is required") []
    else if not (equal profile.auth_type (codes "password"))
        && not (equal profile.auth_type (codes "privateKey"))
    then failure invalid_profile (codes "unsupported authentication type") []
    else success (codes "profile valid") []
