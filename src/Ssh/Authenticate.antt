-- ===== src/Ssh/Authenticate.antt =====
-- `Authenticate` of entry/src/main/cpp/native_ssh_libssh2.cpp.
use tabssh_harmonyos.Prelude.{
  ℕ, true, not, [], Option, none, some, codes, equal, is_empty, if◌then◌else◌,
}
use tabssh_harmonyos.Prelude.Int.{pos, pos_part, eqb_ℤ}
use tabssh_harmonyos.Json.Result.{NativeResult}
use tabssh_harmonyos.Profile.{ProfileConfig, success, failure, timeout, authentication_failed}
use tabssh_harmonyos.Ssh.Calls.{Call, Reply, Io, pure, ◌>>=◌, ◌>>◌, ask}
use tabssh_harmonyos.Ssh.Network.{deadline_after, wait_socket, retry, session_error}
use tabssh_harmonyos.Ssh.State.{SessionState, raw}
use tabssh_harmonyos.Ssh.Handshake.{host_key_data}

-- The call that hands the credentials to libssh2.
unfoldable pub userauth : ℕ → ProfileConfig → Call
userauth session profile =
    if equal profile.auth_type (codes "privateKey")
    then Call.userauth_publickey session profile.username profile.private_key_path (
        if is_empty profile.private_key_passphrase
        then none
        else some profile.private_key_passphrase)
    else Call.userauth_password session profile.username profile.password

-- What follows the loop.
unfoldable pub after_userauth : SessionState → Option Reply → Io (NativeResult × SessionState)
after_userauth state none = pure (failure timeout (codes "SSH authentication timed out") [], state)
after_userauth state (some result) =
    if not (eqb_ℤ result.value (pos 0))
    then (session_error (raw state.session) (codes "SSH authentication failed") >>= λ message.
        pure (failure authentication_failed message [], state))
    else (ask (Call.keepalive_config (raw state.session) state.profile.keep_alive_seconds)
        >> pure (
          success (codes "authenticated") (host_key_data state),
          record state { authenticated = true },
        ))

unfoldable pub send_credentials : SessionState → Io (NativeResult × SessionState)
unfolding userauth after_userauth
send_credentials state = do
  deadline ← deadline_after (pos_part state.profile.timeout_milliseconds)
  result ←
      retry (userauth (raw state.session) state.profile)
        (wait_socket (raw state.session) (raw state.socket_fd) deadline)
  after_userauth state result

unfoldable pub authenticate : SessionState → Io (NativeResult × SessionState)
unfolding send_credentials
authenticate state =
    if state.authenticated
    then pure (success (codes "already authenticated") [], state)
    else send_credentials state
