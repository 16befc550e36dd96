-- ===== src/Ssh/Sftp/Download.antt =====
-- `SftpDownload` of entry/src/main/cpp/native_ssh_libssh2.cpp.
pub mod Saved
pub mod Integrity
pub mod Delivered
use tabssh_harmonyos.Prelude.{
  ℕ, ◌+◌, ◌%◌, ◌^◌, Bool, true, false, not, ◌||◌, ◌⊎◌, inl, inr, [], Option, none, some, Bytes,
  codes, decimal, is_empty, take, if◌then◌else◌,
}
use tabssh_harmonyos.Prelude.Int.{ℤ, pos, negsuc, pos_part, ltb_ℤ, eqb_ℤ}
use tabssh_harmonyos.Json.Result.{NativeResult}
use tabssh_harmonyos.Profile.{success, failure, timeout, invalid_profile}
use tabssh_harmonyos.Ssh.Calls.{
  Call, Reply, Io, pure, ◌>>=◌, ◌>>◌, ask, test_again, on_pointer, Turn, again, done, loop,
}
use tabssh_harmonyos.Ssh.Channel.{wait_for_channel, session_deadline}
use tabssh_harmonyos.Ssh.Sftp.{close_sftp_handle, open_sftp_file, on_sftp}
use tabssh_harmonyos.Ssh.Sftp.Upload.{Transfer, give_up_handle, still, sftp_failure}
use tabssh_harmonyos.Ssh.State.{SessionState, Core}

-- A download that fails once the local file is open: the handle and the file are closed and the file
-- is removed before the message is asked for.
unfoldable pub discard : SessionState → ℕ → ℕ → Bytes → Io NativeResult → Io NativeResult
discard session remote output local_path result = do
  close_sftp_handle session remote
  ask (Call.file_close output)
  ask (Call.file_remove local_path)
  result

abbrev leave : Io NativeResult → Io (Turn Transfer (NativeResult ⊎ Transfer))
leave result = result >>= λ r. pure (done (inl r))

-- What is read, with its length, is written to the local file.
unfoldable pub save :
    SessionState
    → ℕ
    → ℕ
    → Bytes
    → Transfer
    → ℕ
    → Bytes
    → Io (Turn Transfer (NativeResult ⊎ Transfer))
unfolding discard
save session remote output local_path transfer amount bytes = do
  ask (Call.file_write output bytes)
  good ← ask (Call.file_good output)
  if eqb_ℤ good.value (pos 0)
      then leave (
          discard session remote output local_path
            (still (negsuc 0) (codes "local destination write failed")))
      else (session_deadline session >>= λ deadline.
          pure (again (record { deadline = deadline; total = (transfer.total + amount) % 2 ^ 64 })))

unfoldable pub receive_reply :
    SessionState
    → ℕ
    → ℕ
    → Bytes
    → Transfer
    → Reply
    → Bool
    → Io (Turn Transfer (NativeResult ⊎ Transfer))
unfolding save
receive_reply session remote output local_path transfer reply blocked =
    if blocked
    then (wait_for_channel session transfer.deadline >>= λ ready.
        if ready
        then pure (again transfer)
        else leave (
            discard session remote output local_path
              (still timeout (codes "SFTP download timed out"))))
    else if ltb_ℤ reply.value (pos 0)
    then leave (
        discard session remote output local_path
          (sftp_failure session reply.value (codes "SFTP download failed")))
    else if eqb_ℤ reply.value (pos 0)
    then pure (done (inr transfer))
    else save session remote output local_path transfer (pos_part reply.value)
        (take (pos_part reply.value) reply.bytes)

-- One round of the loop over the remote file.
unfoldable pub receive_round :
    SessionState → ℕ → ℕ → Bytes → Transfer → Io (Turn Transfer (NativeResult ⊎ Transfer))
unfolding receive_reply
receive_round session remote output local_path transfer = do
  reply ← ask (Call.sftp_read remote 32768)
  blocked ← test_again reply
  receive_reply session remote output local_path transfer reply blocked

unfoldable pub finish_download :
    SessionState → ℕ → ℕ → Bytes → NativeResult ⊎ Transfer → Io NativeResult
unfolding discard
finish_download session remote output local_path (inl result) = pure result
finish_download session remote output local_path (inr transfer) = do
  ask (Call.file_flush output)
  good ← ask (Call.file_good output)
  if eqb_ℤ good.value (pos 0)
      then discard session remote output local_path
          (still (negsuc 0) (codes "local destination flush failed"))
      else do
        ask (Call.file_close output)
        closed ← close_sftp_handle session remote
        if not closed
            then (ask (Call.file_remove local_path)
                >> sftp_failure session (negsuc 0) (codes "remote file close failed"))
            else pure (success (codes "SFTP download complete") (decimal transfer.total))

unfoldable pub download_file : SessionState → ℕ → ℕ → Bytes → ℕ → Io NativeResult
unfolding receive_round finish_download
download_file session deadline remote local_path output =
    loop (receive_round session remote output local_path)
      (record { deadline = deadline; total = 0 })
    >>= finish_download session remote output local_path

unfoldable pub download_to : SessionState → ℕ → Bytes → ℕ → Io NativeResult
unfolding download_file
download_to session deadline local_path remote = do
  opened ← ask (Call.file_open_output local_path)
  on_pointer opened.pointer
      (give_up_handle session remote
        (still (negsuc 0) (codes "local destination could not be opened")))
      (download_file session deadline remote local_path)

unfoldable pub download_body : Bytes → Bytes → SessionState → ℕ → Io NativeResult
unfolding download_to
download_body remote_path local_path session deadline = do
  remote ← open_sftp_file session remote_path false deadline
  on_pointer remote (sftp_failure session (negsuc 0) (codes "remote file could not be opened"))
      (download_to session deadline local_path)

unfoldable pub sftp_download : Bytes → Bytes → Bytes → Core → Io (NativeResult × Core)
unfolding download_body
sftp_download session_id remote_path local_path core =
    if is_empty local_path || is_empty remote_path
    then pure (failure invalid_profile (codes "file path is required") [], core)
    else on_sftp session_id core (download_body remote_path local_path)
