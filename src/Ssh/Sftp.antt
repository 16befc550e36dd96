-- ===== src/Ssh/Sftp.antt =====
-- SFTP in entry/src/main/cpp/native_ssh_libssh2.cpp: `EnsureSftp`, `OpenSftpFile`, `CloseSftpHandle`,
-- and the operations that are one request (Requests), the listing (Listing) and the two transfers
-- (Upload, Download).
pub mod Traffic
pub mod Opening
pub mod Requests
pub mod Listing
pub mod Upload
pub mod Download
pub mod Operations
use tabssh_harmonyos.Prelude.{
  ℕ, Bool, true, false, not, [], Option, none, some, Bytes, codes, if◌then◌else◌,
}
use tabssh_harmonyos.Prelude.Int.{ℤ, pos, negsuc, eqb_ℤ}
use tabssh_harmonyos.Prelude.Map.{insert}
use tabssh_harmonyos.Json.Result.{NativeResult}
use tabssh_harmonyos.Profile.{success, failure, timeout}
use tabssh_harmonyos.Ssh.Calls.{
  Call, Reply, Io, pure, ◌>>=◌, ask, test_again, on_pointer, Turn, again, done, loop,
}
use tabssh_harmonyos.Ssh.Channel.{wait_for_channel, session_deadline, not_authenticated}
use tabssh_harmonyos.Ssh.Network.{deadline_after, retry, session_error}
use tabssh_harmonyos.Ssh.State.{SessionState, raw, Core, find_authenticated_session}

-- How a loop that asks for a pointer ends.
pub data Acquired : Type 0 where
  got : ℕ → Acquired
  timed_out : Acquired
  refused : Acquired

-- `while (pointer == nullptr)`: a null pointer with EAGAIN waits, another one gives up.
unfoldable pub acquire_null : SessionState → Io Bool → Io (Turn (Unit {0}) Acquired)
acquire_null session wait = do
  error ← ask (Call.last_errno (raw session.session))
  blocked ← test_again error
  if not blocked
      then pure (done refused)
      else (wait >>= λ ready. pure (if ready then again tt else done timed_out))

unfoldable pub acquire_round : SessionState → Call → Io Bool → Io (Turn (Unit {0}) Acquired)
unfolding acquire_null
acquire_round session call wait = do
  reply ← ask call
  on_pointer reply.pointer (acquire_null session wait) (λ p. pure (done (got p)))

unfoldable pub acquire : SessionState → Call → Io Bool → Io Acquired
unfolding acquire_round
acquire session call wait = loop (λ _. acquire_round session call wait) tt

unfoldable pub sftp_acquired : SessionState → Acquired → Io (NativeResult × SessionState)
sftp_acquired session (got p) =
    pure (success (codes "SFTP ready") [], record session { sftp = some p })
sftp_acquired session timed_out =
    pure (failure timeout (codes "SFTP initialization timed out") [], session)
sftp_acquired session refused =
    session_error (raw session.session) (codes "SFTP initialization failed") >>= λ message.
    pure (failure (negsuc 0) message [], session)

unfoldable pub ensure_sftp : SessionState → ℕ → Io (NativeResult × SessionState)
unfolding sftp_acquired
ensure_sftp session deadline =
    on_pointer session.sftp
      (acquire session (Call.sftp_init (raw session.session)) (wait_for_channel session deadline)
        >>= sftp_acquired session)
      (λ _. pure (success (codes "SFTP ready") [], session))

unfoldable pub closed_well : Option Reply → Bool
closed_well none = false
closed_well (some result) = eqb_ℤ result.value (pos 0)

-- The loop ends with the last result, which is EAGAIN where the wait has failed.
unfoldable pub close_sftp_handle : SessionState → ℕ → Io Bool
unfolding closed_well
close_sftp_handle session handle = do
  deadline ← deadline_after 2000
  result ← retry (Call.sftp_close_handle handle) (wait_for_channel session deadline)
  pure (closed_well result)

-- A handle, or `none` for a null pointer.
unfoldable pub handle_of : Acquired → Option ℕ
handle_of (got p) = some p
handle_of timed_out = none
handle_of refused = none

unfoldable pub open_sftp_file : SessionState → Bytes → Bool → ℕ → Io (Option ℕ)
unfolding handle_of
open_sftp_file session path writing deadline = do
  acquired ←
      acquire session (Call.sftp_open (raw session.sftp) path writing)
        (wait_for_channel session deadline)
  pure (handle_of acquired)

-- What every operation does with the session that it has found: the deadline, `EnsureSftp`, and then
-- its own part. `EnsureSftp` alone changes the session.
unfoldable pub ensured :
    Bytes
    → Core
    → (SessionState → ℕ → Io NativeResult)
    → ℕ
    → NativeResult × SessionState
    → Io (NativeResult × Core)
ensured session_id core body deadline (status, session) =
    let core' : Core = record core { sessions = insert session_id session core.sessions } in
    if not status.ok
    then pure (status, core')
    else (body session deadline >>= λ result. pure (result, core'))

unfoldable pub with_sftp :
    Bytes → Core → SessionState → (SessionState → ℕ → Io NativeResult) → Io (NativeResult × Core)
unfolding ensured
with_sftp session_id core session body = do
  deadline ← session_deadline session
  status ← ensure_sftp session deadline
  ensured session_id core body deadline status

unfoldable pub found_sftp :
    Bytes
    → Core
    → (SessionState → ℕ → Io NativeResult)
    → Option SessionState
    → Io (NativeResult × Core)
unfolding with_sftp
found_sftp session_id core body none = pure (not_authenticated, core)
found_sftp session_id core body (some session) = with_sftp session_id core session body

unfoldable pub on_sftp :
    Bytes → Core → (SessionState → ℕ → Io NativeResult) → Io (NativeResult × Core)
unfolding found_sftp
on_sftp session_id core body =
    found_sftp session_id core body (find_authenticated_session core session_id)
