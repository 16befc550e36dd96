-- ===== src/Ssh/Session.antt =====
-- `CreateSession`, `Connect` and `ConfirmHostKey` of entry/src/main/cpp/native_ssh_libssh2.cpp. Each
-- holds `g_mutex` throughout, so it is one step on the globals.
use tabssh_harmonyos.Prelude.{
  true, not, ◌||◌, [], Option, none, some, Bytes, codes, is_empty, if◌then◌else◌,
}
use tabssh_harmonyos.Prelude.Int.{pos, eqb_ℤ}
use tabssh_harmonyos.Prelude.Map.{lookup, insert}
use tabssh_harmonyos.Fingerprint.{constant_time_equal}
use tabssh_harmonyos.Json.Result.{NativeResult}
use tabssh_harmonyos.Profile.{
  parse_profile, invalid_profile_result, success, failure, host_key_unknown, host_key_changed,
  not_connected,
}
use tabssh_harmonyos.Ssh.Calls.{Io, pure, ◌>>=◌}
use tabssh_harmonyos.Ssh.State.{SessionState, new_session, Core, next_id}
use tabssh_harmonyos.Ssh.Handshake.{host_key_data, ensure_handshake}
use tabssh_harmonyos.Ssh.Authenticate.{authenticate}

unfoldable pub create_session : Bytes → Core → Bytes × Core
unfolding next_id parse_profile
create_session profile_json core =
    let (profile, cleared) = parse_profile profile_json in
    let (id, core') = next_id (codes "session") core in
    (id, record core' { sessions = insert id (new_session profile) core'.sessions })

-- The answer where the host key is not confirmed.
unfoldable pub unconfirmed : SessionState → NativeResult
unconfirmed state =
    if is_empty state.profile.expected_host_key
    then failure host_key_unknown (codes "host key confirmation required") (host_key_data state)
    else failure host_key_changed (codes "host key changed") (host_key_data state)

-- What `Connect` does once the handshake has an outcome.
unfoldable pub after_ensure : NativeResult × SessionState → Io (NativeResult × SessionState)
unfolding unconfirmed
after_ensure (handshake, state) =
    if not handshake.ok
    then pure (handshake, state)
    else if not state.host_key_confirmed
    then pure (unconfirmed state, state)
    else authenticate state

-- `Connect` on the session that it has found.
unfoldable pub connect_session : SessionState → Io (NativeResult × SessionState)
unfolding after_ensure
connect_session state =
    if not (invalid_profile_result state.profile).ok
    then pure (invalid_profile_result state.profile, state)
    else (ensure_handshake state >>= after_ensure)

abbrev pub not_found : NativeResult
not_found = failure (pos 404) (codes "session not found") []

unfoldable pub connect_found : Bytes → Core → Option SessionState → Io (NativeResult × Core)
unfolding connect_session
connect_found session_id core none = pure (not_found, core)
connect_found session_id core (some state) = do
  outcome ← connect_session state
  pure (outcome.0, record core { sessions = insert session_id outcome.1 core.sessions })

unfoldable pub connect : Bytes → Core → Io (NativeResult × Core)
unfolding connect_found
connect session_id core =
    if not (eqb_ℤ core.runtime_status (pos 0))
    then pure (failure core.runtime_status (codes "libssh2 initialization failed") [], core)
    else connect_found session_id core (lookup session_id core.sessions)

-- `ConfirmHostKey` on the session that it has found.
unfoldable pub confirm_session : Bytes → SessionState → NativeResult × SessionState
confirm_session fingerprint state =
    if not state.handshake_complete || is_empty state.observed_host_key
    then (failure not_connected (codes "SSH handshake has not produced a host key") [], state)
    else if not (constant_time_equal fingerprint state.observed_host_key)
    then (
      failure host_key_changed (codes "host key confirmation does not match the observed key")
          (host_key_data state),
      state,
    )
    else let confirmed = record state {
      profile = record (state.profile) { expected_host_key = state.observed_host_key };
      host_key_confirmed = true;
    } in
      (success (codes "host key confirmed for this session") (host_key_data confirmed), confirmed)

unfoldable pub confirm_found : Bytes → Bytes → Core → Option SessionState → NativeResult × Core
unfolding confirm_session
confirm_found session_id fingerprint core none = (not_found, core)
confirm_found session_id fingerprint core (some state) =
    let (result, state') = confirm_session fingerprint state in
    (result, record core { sessions = insert session_id state' core.sessions })

unfoldable pub confirm_host_key : Bytes → Bytes → Core → NativeResult × Core
unfolding confirm_found
confirm_host_key session_id fingerprint core =
    confirm_found session_id fingerprint core (lookup session_id core.sessions)
