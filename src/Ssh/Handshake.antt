-- ===== src/Ssh/Handshake.antt =====
-- `HostKeyAlgorithm`, `CaptureHostKey`, `HostKeyData`, `CloseNetwork` and `EnsureHandshake` of
-- entry/src/main/cpp/native_ssh_libssh2.cpp. A function that takes a `SessionState&` returns the new
-- state beside its result.
use tabssh_harmonyos.Prelude.{
  ℕ, Bool, true, false, not, ◌&&◌, ◌||◌, [], ◌++◌, Option, none, some, Bytes, codes, is_empty, take,
  if◌then◌else◌,
}
use tabssh_harmonyos.Prelude.Int.{pos, negsuc, pos_part, eqb_ℤ}
use tabssh_harmonyos.Fingerprint.{base64, constant_time_equal}
use tabssh_harmonyos.Json.Escape.{escape_json}
use tabssh_harmonyos.Json.Result.{NativeResult}
use tabssh_harmonyos.Profile.{success, failure, timeout}
use tabssh_harmonyos.Ssh.Calls.{
  Call, Reply, KeyType, rsa, dss, ecdsa_256, ecdsa_384, ecdsa_521, ed25519, other, Io, pure, ◌>>=◌,
  ◌>>◌, ask, on_pointer,
}
use tabssh_harmonyos.Ssh.Network.{deadline_after, wait_socket, retry, session_error, connect_tcp}
use tabssh_harmonyos.Ssh.State.{SessionState}

unfoldable pub host_key_algorithm : KeyType → Bytes
host_key_algorithm rsa = codes "ssh-rsa"
host_key_algorithm dss = codes "ssh-dss"
host_key_algorithm ecdsa_256 = codes "ecdsa-sha2-nistp256"
host_key_algorithm ecdsa_384 = codes "ecdsa-sha2-nistp384"
host_key_algorithm ecdsa_521 = codes "ecdsa-sha2-nistp521"
host_key_algorithm ed25519 = codes "ssh-ed25519"
host_key_algorithm other = codes "unknown"

unfoldable pub key_type_of : Reply → Io KeyType
key_type_of reply env log = some (env.key_type reply.number, log)

-- The fingerprint of the 32 bytes of a hash.
unfoldable pub fingerprint : Bytes → Bytes
fingerprint hash = codes "SHA256:" ++ base64 (take 32 hash)

-- The last lines of `CaptureHostKey`, once the key and its hash are known.
unfoldable pub observe : SessionState → Bytes → KeyType → SessionState
unfolding fingerprint host_key_algorithm
observe state hash key_type = record state {
  observed_host_key = fingerprint hash;
  observed_host_key_algorithm = host_key_algorithm key_type;
  host_key_confirmed =
      not (is_empty state.profile.expected_host_key)
      && constant_time_equal state.profile.expected_host_key (fingerprint hash);
}

-- A null hash leaves the state as it is.
unfoldable pub observe_hash : SessionState → Reply → Reply → Io (Bool × SessionState)
observe_hash state key hash =
    on_pointer hash.pointer (pure (false, state))
      λ _. key_type_of key >>= λ key_type. pure (true, observe state hash.bytes key_type)

abbrev is_null : Option ℕ → Bool
is_null none = true
is_null (some p) = false

-- The key's length is the number of bytes handed out.
unfoldable pub capture_host_key : ℕ → SessionState → Io (Bool × SessionState)
unfolding observe_hash
capture_host_key session state = do
  key ← ask (Call.session_hostkey session)
  if is_null key.pointer || is_empty key.bytes
      then pure (false, state)
      else (ask (Call.hostkey_hash session) >>= observe_hash state key)

unfoldable pub host_key_data : SessionState → Bytes
host_key_data state =
    codes "{\"fingerprint\":\""
    ++ escape_json state.observed_host_key
    ++ codes "\",\"algorithm\":\""
    ++ escape_json state.observed_host_key_algorithm
    ++ codes "\"}"

-- The wait of the closing loops: none without a session or a socket.
unfoldable pub wait_on : Option ℕ → Option ℕ → ℕ → Io Bool
wait_on (some session) (some fd) deadline = wait_socket session fd deadline
wait_on _ _ deadline = pure false

unfoldable pub wait_closing : SessionState → ℕ → Io Bool
unfolding wait_on
wait_closing state deadline = wait_on state.session state.socket_fd deadline

-- The calls of `CloseNetwork`, on what is there.
unfoldable pub release_sftp : ℕ → Io Bool → Io (Unit {0})
release_sftp sftp wait = retry (Call.sftp_shutdown sftp) wait >> pure tt

unfoldable pub release_session : ℕ → Io Bool → Io (Unit {0})
release_session session wait =
    retry (Call.session_disconnect session) wait
    >> retry (Call.session_free session) wait
    >> pure tt

unfoldable pub release_socket : ℕ → Io (Unit {0})
release_socket fd = ask (Call.close_fd fd) >> pure tt

-- The wait of the first loop sees the session; so does that of the others.
unfoldable pub release_network : SessionState → Io (Unit {0})
unfolding wait_closing release_sftp release_session release_socket
release_network state = do
  deadline ← deadline_after 2000
  on_pointer state.sftp (pure tt) (λ p. release_sftp p (wait_closing state deadline))
  on_pointer state.session (pure tt) (λ p. release_session p (wait_closing state deadline))
  on_pointer state.socket_fd (pure tt) release_socket

-- The session after `CloseNetwork`.
unfoldable pub closed : SessionState → SessionState
closed state = record state {
  socket_fd = none;
  session = none;
  sftp = none;
  handshake_complete = false;
  host_key_confirmed = false;
  authenticated = false;
  observed_host_key = [];
  observed_host_key_algorithm = [];
}

unfoldable pub close_network : SessionState → Io SessionState
unfolding release_network closed
close_network state = release_network state >> pure (closed state)

abbrev Outcome : Type 0
Outcome = NativeResult × SessionState

-- Fails, after `CloseNetwork`.
unfoldable pub close_with : NativeResult → SessionState → Io Outcome
close_with result state = do state' ← close_network state; pure (result, state')

-- The end of `EnsureHandshake`, behind a completed handshake.
unfoldable pub finish_handshake : Bool × SessionState → Io Outcome
finish_handshake (true, state) =
    pure (success (codes "handshake complete") (host_key_data state), state)
finish_handshake (false, state) =
    close_with (failure (negsuc 0) (codes "server host key is unavailable") []) state

-- What follows the handshake loop.
unfoldable pub after_handshake : ℕ → SessionState → Option Reply → Io Outcome
unfolding finish_handshake
after_handshake session state none =
    close_with (failure timeout (codes "SSH handshake timed out") []) state
after_handshake session state (some result) =
    if not (eqb_ℤ result.value (pos 0))
    then (session_error session (codes "SSH handshake failed") >>= λ message.
        close_with (failure result.value message []) state)
    else (capture_host_key session (record state { handshake_complete = true })
        >>= finish_handshake)

-- From an open socket on.
unfoldable pub allocation_failed : ℕ → SessionState → Io Outcome
allocation_failed fd state =
    ask (Call.close_fd fd)
    >> pure (
      failure (negsuc 0) (codes "libssh2 session allocation failed") [],
      record state { socket_fd = none; session = none },
    )

unfoldable pub start_handshake : ℕ → SessionState → ℕ → Io Outcome
unfolding after_handshake
start_handshake fd state session = do
  ask (Call.session_set_blocking session)
  deadline ← deadline_after (pos_part state.profile.timeout_milliseconds)
  result ← retry (Call.session_handshake session fd) (wait_socket session fd deadline)
  after_handshake session (record state { socket_fd = some fd; session = some session }) result

unfoldable pub connected_tcp : SessionState → Option ℕ × Bytes → Io Outcome
unfolding start_handshake allocation_failed
connected_tcp state (none, error) =
    pure (failure timeout error [], record state { socket_fd = none })
connected_tcp state (some fd, error) = do
  created ← ask Call.session_init
  on_pointer created.pointer (allocation_failed fd state) (start_handshake fd state)

unfoldable pub ensure_handshake : SessionState → Io Outcome
unfolding connected_tcp
ensure_handshake state =
    if state.handshake_complete
    then pure (success (codes "handshake complete") [], state)
    else (connect_tcp state.profile.host state.profile.port
          (pos_part state.profile.timeout_milliseconds)
        >>= connected_tcp state)
