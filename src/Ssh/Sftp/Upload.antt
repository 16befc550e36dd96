-- ===== src/Ssh/Sftp/Upload.antt =====
-- `SftpUpload` of entry/src/main/cpp/native_ssh_libssh2.cpp.
pub mod Chunk
pub mod Integrity
pub mod Delivered
use tabssh_harmonyos.Prelude.{
  ℕ, ◌+◌, ◌%◌, ◌^◌, Bool, true, false, not, ◌||◌, ◌⊎◌, inl, inr, [], Option, none, some, Bytes,
  codes, decimal, drop, is_empty, length, ltb, if◌then◌else◌,
}
use tabssh_harmonyos.Prelude.Int.{ℤ, pos, negsuc, pos_part, ltb_ℤ, eqb_ℤ}
use tabssh_harmonyos.Json.Result.{NativeResult}
use tabssh_harmonyos.Profile.{success, failure, timeout, invalid_profile}
use tabssh_harmonyos.Ssh.Calls.{
  Call, Reply, Io, pure, ◌>>=◌, ◌>>◌, ask, test_again, on_pointer, Turn, again, done, loop,
}
use tabssh_harmonyos.Ssh.Channel.{wait_for_channel, session_deadline, not_authenticated}
use tabssh_harmonyos.Ssh.Network.{session_error}
use tabssh_harmonyos.Ssh.Sftp.{close_sftp_handle, open_sftp_file, with_sftp}
use tabssh_harmonyos.Ssh.State.{SessionState, raw, Core, find_authenticated_session}

-- The deadline and the number of bytes written, a uint64_t.
pub record Transfer : Type 0 where
  pub deadline : ℕ
  pub total : ℕ

-- The inner loop also has the offset in the chunk.
pub record Sending : Type 0 where
  pub offset : ℕ
  pub transfer : Transfer

-- A transfer that fails: the handle is closed before the message is asked for.
unfoldable pub give_up_handle : SessionState → ℕ → Io NativeResult → Io NativeResult
give_up_handle session handle result = close_sftp_handle session handle >> result

abbrev pub still : ℤ → Bytes → Io NativeResult
still code message = pure (failure code message [])

abbrev pub sftp_failure : SessionState → ℤ → Bytes → Io NativeResult
sftp_failure session code fallback =
    session_error (raw session.session) fallback >>= λ message. pure (failure code message [])

unfoldable pub send_reply :
    SessionState → ℕ → Sending → Reply → Bool → Io (Turn Sending (NativeResult ⊎ Transfer))
unfolding give_up_handle
send_reply session remote sending reply blocked =
    if blocked
    then (wait_for_channel session sending.transfer.deadline >>= λ ready.
        if ready
        then pure (again sending)
        else (give_up_handle session remote (still timeout (codes "SFTP upload timed out")) >>= λ r.
            pure (done (inl r))))
    else if not (ltb_ℤ (pos 0) reply.value)
    then (give_up_handle session remote
          (sftp_failure session reply.value (codes "SFTP upload failed"))
        >>= λ r. pure (done (inl r)))
    else (session_deadline session >>= λ deadline. pure (
        again (record {
          offset = sending.offset + pos_part reply.value;
          transfer = record {
            deadline = deadline;
            total = (sending.transfer.total + pos_part reply.value) % 2 ^ 64;
          };
        })))

-- One round of the loop over a chunk.
unfoldable pub send_round :
    SessionState → ℕ → Bytes → Sending → Io (Turn Sending (NativeResult ⊎ Transfer))
unfolding send_reply
send_round session remote chunk sending =
    if not (ltb sending.offset (length chunk)) then pure (done (inr sending.transfer)) else do
      reply ← ask (Call.sftp_write remote (drop sending.offset chunk))
      blocked ← test_again reply
      send_reply session remote sending reply blocked

unfoldable pub send_chunk : SessionState → ℕ → Bytes → Transfer → Io (NativeResult ⊎ Transfer)
unfolding send_round
send_chunk session remote chunk transfer =
    loop (send_round session remote chunk) (record { offset = 0; transfer = transfer })

abbrev pub next_chunk : NativeResult ⊎ Transfer → Turn Transfer (NativeResult ⊎ Transfer)
next_chunk (inl result) = done (inl result)
next_chunk (inr transfer) = again transfer

-- One round of the loop over the file.
unfoldable pub upload_round :
    SessionState → ℕ → ℕ → Transfer → Io (Turn Transfer (NativeResult ⊎ Transfer))
unfolding send_chunk
upload_round session input remote transfer = do
  good ← ask (Call.file_good input)
  if eqb_ℤ good.value (pos 0) then pure (done (inr transfer)) else do
    chunk ← ask (Call.file_read input 32768)
    if is_empty chunk.bytes
        then pure (done (inr transfer))
        else (send_chunk session remote chunk.bytes transfer >>= λ o. pure (next_chunk o))

unfoldable pub finish_upload : SessionState → ℕ → ℕ → NativeResult ⊎ Transfer → Io NativeResult
finish_upload session input remote (inl result) = pure result
finish_upload session input remote (inr transfer) = do
  bad ← ask (Call.file_bad input)
  if not (eqb_ℤ bad.value (pos 0))
      then give_up_handle session remote (still (negsuc 0) (codes "local file read failed"))
      else do
        closed ← close_sftp_handle session remote
        if not closed
            then sftp_failure session (negsuc 0) (codes "remote file close failed")
            else pure (success (codes "SFTP upload complete") (decimal transfer.total))

unfoldable pub upload_file : SessionState → ℕ → ℕ → ℕ → Io NativeResult
unfolding upload_round finish_upload
upload_file session input deadline remote =
    loop (upload_round session input remote) (record { deadline = deadline; total = 0 })
    >>= finish_upload session input remote

unfoldable pub upload_body : ℕ → Bytes → SessionState → ℕ → Io NativeResult
unfolding upload_file
upload_body input remote_path session deadline = do
  remote ← open_sftp_file session remote_path true deadline
  on_pointer remote (sftp_failure session (negsuc 0) (codes "remote file could not be opened"))
      (upload_file session input deadline)

unfoldable pub upload_found :
    Bytes → Bytes → Bytes → Core → Option SessionState → Io (NativeResult × Core)
unfolding upload_body
upload_found session_id local_path remote_path core none = pure (not_authenticated, core)
upload_found session_id local_path remote_path core (some session) = do
  input ← ask (Call.file_open_input local_path)
  on_pointer input.pointer
      (pure (failure (negsuc 0) (codes "local file could not be opened") [], core))
      (λ stream. with_sftp session_id core session (upload_body stream remote_path))

unfoldable pub sftp_upload : Bytes → Bytes → Bytes → Core → Io (NativeResult × Core)
unfolding upload_found
sftp_upload session_id local_path remote_path core =
    if is_empty local_path || is_empty remote_path
    then pure (failure invalid_profile (codes "file path is required") [], core)
    else upload_found session_id local_path remote_path core
        (find_authenticated_session core session_id)
