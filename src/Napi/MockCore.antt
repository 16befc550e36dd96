-- ===== src/Napi/MockCore.antt =====
-- entry/src/main/cpp/native_ssh_mock.cpp as the core of entry/src/main/cpp/napi_init.cpp. Nothing in it
-- throws.
use tabssh_harmonyos.Json.Result.{NativeResult, print_int}
use tabssh_harmonyos.Mock
use tabssh_harmonyos.Mock.{Mock}
use tabssh_harmonyos.Napi.Core.{NativeCore, Attempt, returned}
use tabssh_harmonyos.Prelude.{Bytes, codes, ◌++◌, if◌then◌else◌}

-- `ToJson` of the mock core, which escapes fewer characters.
unfoldable pub to_json : NativeResult → Bytes
unfolding codes print_int
to_json result =
    codes "{\"ok\":"
    ++ (if result.ok then codes "true" else codes "false")
    ++ codes ",\"code\":"
    ++ print_int result.code
    ++ codes ",\"message\":\""
    ++ Mock.escape_json result.message
    ++ codes "\""
    ++ codes ",\"data\":\""
    ++ Mock.escape_json result.payload
    ++ codes "\"}"

abbrev both : {A : Type 0} → A × Mock → Attempt Mock A
both (a, m) = returned a m

abbrev pub mock_core : NativeCore
mock_core = record {
  State = Mock;
  Answer = NativeResult;
  to_json = to_json;
  connect = λ id m. both (Mock.connect id m);
  open_shell = λ id m. both (Mock.open_shell id m);
  write = λ id text m. both (Mock.write id text m);
  read = λ id m. both (Mock.read id m);
  resize = λ id cols rows m. both (Mock.resize id cols rows m);
  close_channel = λ id m. both (Mock.close_channel id m);
  disconnect = λ id m. both (Mock.disconnect id m);
  sftp_list = λ id path m. returned (Mock.sftp_list id path m) m;
  sftp_upload = λ id a b m. returned (Mock.sftp_upload id a b) m;
  sftp_download = λ id a b m. returned (Mock.sftp_download id a b) m;
  sftp_mkdir = λ id path m. returned (Mock.sftp_mkdir id path) m;
  sftp_remove = λ id path d m. returned (Mock.sftp_remove id path d) m;
  sftp_rename = λ id a b m. returned (Mock.sftp_rename id a b) m;
  sftp_chmod = λ id path mode m. returned (Mock.sftp_chmod id path mode) m;
  add_local_forward = λ id p h q m. returned (Mock.add_local_forward id p h q) m;
  add_remote_forward = λ id p h q m. returned (Mock.add_remote_forward id p h q) m;
  add_dynamic_forward = λ id p m. returned (Mock.add_dynamic_forward id p) m;
  remove_forward = λ id m. returned (Mock.remove_forward id) m;
}
