-- ===== src/Ssh/Sftp/Requests.antt =====
-- `SftpSimpleResult`, `SftpMkdir`, `SftpRemove`, `SftpRename` and `SftpChmod` of
-- entry/src/main/cpp/native_ssh_libssh2.cpp.
use tabssh_harmonyos.Prelude.{
  ℕ, Bool, ◌||◌, [], Option, none, some, Bytes, codes, is_empty, if◌then◌else◌,
}
use tabssh_harmonyos.Prelude.Int.{ℤ, pos, ltb_ℤ, eqb_ℤ}
use tabssh_harmonyos.Json.Result.{NativeResult}
use tabssh_harmonyos.Profile.{success, failure, timeout, invalid_profile}
use tabssh_harmonyos.Ssh.Calls.{Call, Reply, Io, pure, ◌>>=◌}
use tabssh_harmonyos.Ssh.Channel.{wait_for_channel}
use tabssh_harmonyos.Ssh.Network.{retry, session_error}
use tabssh_harmonyos.Ssh.Sftp.{on_sftp}
use tabssh_harmonyos.Ssh.State.{SessionState, raw, Core}

-- The three messages of a request.
pub record Messages : Type 0 where
  pub timed_out : Bytes
  pub succeeded : Bytes
  pub failed : Bytes

unfoldable pub sftp_simple_result : SessionState → Reply → Messages → Io NativeResult
sftp_simple_result session result messages =
    if eqb_ℤ result.value (pos 0)
    then pure (success messages.succeeded [])
    else (session_error (raw session.session) messages.failed >>= λ message.
        pure (failure result.value message []))

unfoldable pub request_result : SessionState → Messages → Option Reply → Io NativeResult
unfolding sftp_simple_result
request_result session messages none = pure (failure timeout messages.timed_out [])
request_result session messages (some result) = sftp_simple_result session result messages

-- One call, repeated while it answers EAGAIN and the socket gets ready.
unfoldable pub request : (ℕ → Call) → Messages → SessionState → ℕ → Io NativeResult
unfolding request_result
request call messages session deadline = do
  result ← retry (call (raw session.sftp)) (wait_for_channel session deadline)
  request_result session messages result

abbrev pub mkdir_messages : Messages
mkdir_messages = record {
  timed_out = codes "SFTP create directory timed out";
  succeeded = codes "SFTP directory created";
  failed = codes "SFTP create directory failed";
}

unfoldable pub sftp_mkdir : Bytes → Bytes → Core → Io (NativeResult × Core)
unfolding request
sftp_mkdir session_id path core =
    if is_empty path
    then pure (failure invalid_profile (codes "directory path is required") [], core)
    else on_sftp session_id core (request (λ sftp. Call.sftp_mkdir sftp path) mkdir_messages)

unfoldable pub removal : Bytes → Bool → ℕ → Call
removal path directory sftp =
    if directory then Call.sftp_rmdir sftp path else Call.sftp_unlink sftp path

abbrev pub remove_messages : Messages
remove_messages = record {
  timed_out = codes "SFTP remove timed out";
  succeeded = codes "SFTP entry removed";
  failed = codes "SFTP remove failed";
}

unfoldable pub sftp_remove : Bytes → Bytes → Bool → Core → Io (NativeResult × Core)
unfolding request removal
sftp_remove session_id path directory core =
    if is_empty path
    then pure (failure invalid_profile (codes "remote path is required") [], core)
    else on_sftp session_id core (request (removal path directory) remove_messages)

abbrev pub rename_messages : Messages
rename_messages = record {
  timed_out = codes "SFTP rename timed out";
  succeeded = codes "SFTP entry renamed";
  failed = codes "SFTP rename failed";
}

unfoldable pub sftp_rename : Bytes → Bytes → Bytes → Core → Io (NativeResult × Core)
unfolding request
sftp_rename session_id source_path destination_path core =
    if is_empty source_path || is_empty destination_path
    then pure (failure invalid_profile (codes "remote paths are required") [], core)
    else on_sftp session_id core
        (request (λ sftp. Call.sftp_rename sftp source_path destination_path) rename_messages)

abbrev pub chmod_messages : Messages
chmod_messages = record {
  timed_out = codes "SFTP permission update timed out";
  succeeded = codes "SFTP permissions updated";
  failed = codes "SFTP permission update failed";
}

unfoldable pub sftp_chmod : Bytes → Bytes → ℤ → Core → Io (NativeResult × Core)
unfolding request
sftp_chmod session_id path mode core =
    if is_empty path || ltb_ℤ mode (pos 0) || ltb_ℤ (pos 4095) mode
    then pure (failure invalid_profile (codes "valid path and mode are required") [], core)
    else on_sftp session_id core
        (request (λ sftp. Call.sftp_set_permissions sftp path mode) chmod_messages)
