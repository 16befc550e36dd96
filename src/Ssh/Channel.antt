-- ===== src/Ssh/Channel.antt =====
-- `CloseChannelInternal`, `OpenShell`, `Resize` and `CloseChannel` of
-- entry/src/main/cpp/native_ssh_libssh2.cpp.
use tabssh_harmonyos.Prelude.{
  ℕ, Bool, true, false, not, ◌||◌, [], Option, none, some, Bytes, codes, if◌then◌else◌,
}
use tabssh_harmonyos.Prelude.Int.{ℤ, pos, pos_part, ltb_ℤ, eqb_ℤ}
use tabssh_harmonyos.Prelude.Map.{lookup, insert, erase}
use tabssh_harmonyos.Json.Result.{NativeResult}
use tabssh_harmonyos.Profile.{success, failure, timeout, invalid_profile, not_connected}
use tabssh_harmonyos.Ssh.Calls.{
  Call, Reply, Io, pure, ◌>>=◌, ◌>>◌, ask, test_again, on_pointer, Turn, again, done, loop,
}
use tabssh_harmonyos.Ssh.Network.{deadline_after, wait_socket, retry, session_error}
use tabssh_harmonyos.Ssh.State.{
  SessionState, raw, ChannelState, Core, next_id, find_authenticated_session,
}

-- `WaitForChannel`.
abbrev pub wait_for_channel : SessionState → ℕ → Io Bool
wait_for_channel session deadline =
    wait_socket (raw session.session) (raw session.socket_fd) deadline

-- `session->profile.timeoutMilliseconds` from now.
abbrev pub session_deadline : SessionState → Io ℕ
session_deadline session = deadline_after (pos_part session.profile.timeout_milliseconds)

unfoldable pub close_channel_internal : SessionState → ℕ → Io (Unit {0})
close_channel_internal session channel = do
  deadline ← deadline_after 2000
  retry (Call.channel_send_eof channel) (wait_for_channel session deadline)
  retry (Call.channel_close channel) (wait_for_channel session deadline)
  retry (Call.channel_free channel) (wait_for_channel session deadline)
  pure tt

-- The loop's condition, which asks for the error once more.
unfoldable pub open_again : SessionState → Io (Turn (Unit {0}) (Option ℕ))
open_again session = do
  error ← ask (Call.last_errno (raw session.session))
  blocked ← test_again error
  pure (if blocked then again tt else done none)

unfoldable pub open_blocked : SessionState → Io Bool → Io (Turn (Unit {0}) (Option ℕ))
unfolding open_again
open_blocked session wait = do
  error ← ask (Call.last_errno (raw session.session))
  blocked ← test_again error
  if not blocked
      then open_again session
      else (wait >>= λ ready. if ready then open_again session else pure (done none))

unfoldable pub open_round : SessionState → Io Bool → Io (Turn (Unit {0}) (Option ℕ))
unfolding open_blocked
open_round session wait = do
  opened ← ask (Call.channel_open (raw session.session))
  on_pointer opened.pointer (open_blocked session wait) (λ p. pure (done (some p)))

-- Whether a request on a new channel has succeeded; if not, the channel is closed.
unfoldable pub accept_request : SessionState → ℕ → Option Reply → Io Bool
accept_request session channel none = close_channel_internal session channel >> pure false
accept_request session channel (some result) =
    if not (eqb_ℤ result.value (pos 0))
    then (close_channel_internal session channel >> pure false)
    else pure true

-- The id of a new channel, registered.
unfoldable pub register_channel : Bytes → Core → ℕ → Bytes × Core
unfolding next_id
register_channel session_id core channel =
    let (id, core') = next_id (codes "channel") core in
    (
      id,
      record core' {
        channels =
            insert id
              (record { session_id = session_id; channel = channel; cols = pos 80; rows = pos 24 })
              core'.channels;
      },
    )

-- A terminal and a shell on an open channel; the empty id stands for failure.
unfoldable pub start_shell : Bytes → Core → SessionState → ℕ → ℕ → Io (Bytes × Core)
unfolding accept_request register_channel
start_shell session_id core session deadline channel = do
  terminal ←
      retry (Call.channel_request_pty channel session.profile.terminal_type)
        (wait_for_channel session deadline)
  has_terminal ← accept_request session channel terminal
  if not has_terminal then pure ([], core) else (do
    shell ← retry (Call.channel_shell channel) (wait_for_channel session deadline)
    has_shell ← accept_request session channel shell
    pure (if has_shell then register_channel session_id core channel else ([], core)))

unfoldable pub open_shell_on : Bytes → Core → SessionState → Io (Bytes × Core)
unfolding open_round start_shell
open_shell_on session_id core session = do
  deadline ← session_deadline session
  channel ← loop (λ _. open_round session (wait_for_channel session deadline)) tt
  on_pointer channel (pure ([], core)) (start_shell session_id core session deadline)

unfoldable pub open_shell_found : Bytes → Core → Option SessionState → Io (Bytes × Core)
unfolding open_shell_on
open_shell_found session_id core none = pure ([], core)
open_shell_found session_id core (some session) = open_shell_on session_id core session

unfoldable pub open_shell : Bytes → Core → Io (Bytes × Core)
unfolding open_shell_found find_authenticated_session
open_shell session_id core =
    open_shell_found session_id core (find_authenticated_session core session_id)

abbrev pub channel_not_found : NativeResult
channel_not_found = failure (pos 404) (codes "channel not found") []

abbrev pub not_authenticated : NativeResult
not_authenticated = failure not_connected (codes "session is not authenticated") []

-- What follows the loop of `Resize`.
unfoldable pub after_resize :
    Bytes → ChannelState → ℤ → ℤ → SessionState → Core → Option Reply → Io (NativeResult × Core)
after_resize channel_id channel cols rows session core none =
    pure (failure timeout (codes "PTY resize timed out") [], core)
after_resize channel_id channel cols rows session core (some result) =
    if not (eqb_ℤ result.value (pos 0))
    then (session_error (raw session.session) (codes "PTY resize failed") >>= λ message.
        pure (failure result.value message [], core))
    else pure (
      success (codes "pty resized") [],
      record core {
        channels = insert channel_id (record channel { cols = cols; rows = rows }) core.channels;
      },
    )

unfoldable pub resize_on :
    Bytes → ChannelState → ℤ → ℤ → Core → Option SessionState → Io (NativeResult × Core)
unfolding after_resize
resize_on channel_id channel cols rows core none = pure (not_authenticated, core)
resize_on channel_id channel cols rows core (some session) = do
  deadline ← session_deadline session
  result ←
      retry (Call.channel_pty_size channel.channel cols rows) (wait_for_channel session deadline)
  after_resize channel_id channel cols rows session core result

unfoldable pub resize_found : Bytes → ℤ → ℤ → Core → Option ChannelState → Io (NativeResult × Core)
unfolding resize_on find_authenticated_session
resize_found channel_id cols rows core none = pure (channel_not_found, core)
resize_found channel_id cols rows core (some channel) =
    resize_on channel_id channel cols rows core (find_authenticated_session core channel.session_id)

unfoldable pub resize : Bytes → ℤ → ℤ → Core → Io (NativeResult × Core)
unfolding resize_found
resize channel_id cols rows core =
    if ltb_ℤ cols (pos 1) || ltb_ℤ rows (pos 1)
    then pure (failure invalid_profile (codes "terminal size must be positive") [], core)
    else resize_found channel_id cols rows core (lookup channel_id core.channels)

-- The channel is closed if its session is there and has a libssh2 session.
unfoldable pub close_if_open : ChannelState → Option SessionState → Io (Unit {0})
close_if_open channel none = pure tt
close_if_open channel (some session) =
    on_pointer session.session (pure tt) (λ _. close_channel_internal session channel.channel)

unfoldable pub close_found : Bytes → Core → Option ChannelState → Io (NativeResult × Core)
unfolding close_if_open
close_found channel_id core none = pure (channel_not_found, core)
close_found channel_id core (some channel) =
    close_if_open channel (lookup channel.session_id core.sessions)
    >> pure (
      success (codes "channel closed") [],
      record core { channels = erase channel_id core.channels },
    )

unfoldable pub close_channel : Bytes → Core → Io (NativeResult × Core)
unfolding close_found
close_channel channel_id core = close_found channel_id core (lookup channel_id core.channels)
