-- ===== src/Json/Result.antt =====
-- `NativeResult` of entry/src/main/cpp/native_ssh_core.h and its `ToJson`.
use tabssh_harmonyos.Prelude.{suc, Bool, ◌∷◌, ◌++◌, Bytes, codes, decimal, if◌then◌else◌}
use tabssh_harmonyos.Prelude.Int.{ℤ, pos, negsuc}
use tabssh_harmonyos.Json.Escape.{escape_json}

pub record NativeResult : Type 0 where
  pub ok : Bool
  pub code : ℤ
  pub message : Bytes
  pub payload : Bytes

-- `output << result.code`.
unfoldable pub print_int : ℤ → Bytes
unfolding decimal
print_int (pos n) = decimal n
print_int (negsuc n) = b'-' ∷ decimal (suc n)

unfoldable pub to_json : NativeResult → Bytes
unfolding codes print_int escape_json
to_json result =
    codes "{\"ok\":"
    ++ (if result.ok then codes "true" else codes "false")
    ++ codes ",\"code\":"
    ++ print_int result.code
    ++ codes ",\"message\":\""
    ++ escape_json result.message
    ++ codes "\""
    ++ codes ",\"data\":\""
    ++ escape_json result.payload
    ++ codes "\"}"
