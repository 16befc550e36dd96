-- ===== src/Ssh/Forward/Socket.antt =====
-- `WaitLocalSocket`, `ReadSocketExact`, `WriteSocketExact`, `OpenDirectChannel` of
-- entry/src/main/cpp/native_ssh_libssh2.cpp.
use tabssh_harmonyos.Prelude.{
  ℕ, ◌+◌, ◌-◌, Bool, true, false, not, ◌&&◌, ◌||◌, [], ◌++◌, Option, none, some, Bytes, drop,
  length, ltb, min, take, ◌==◌, if◌then◌else◌,
}
use tabssh_harmonyos.Prelude.Int.{ℤ, pos, pos_part, ltb_ℤ, eqb_ℤ}
use tabssh_harmonyos.Ssh.Calls.{
  Call, Reply, Io, pure, ◌>>=◌, ◌>>◌, ask, test_again, look, is_stopping, on_pointer, Turn, again,
  done, loop,
}
use tabssh_harmonyos.Ssh.Channel.{session_deadline}
use tabssh_harmonyos.Ssh.Forward.Relay.{is_transient}
use tabssh_harmonyos.Ssh.Network.{deadline_after, remaining_milliseconds}
use tabssh_harmonyos.Ssh.State.{SessionState, raw, find_authenticated_session}

-- What `poll` says of the socket: go round again, or whether it is ready.
unfoldable pub local_event : Bool → Bool → Reply → Turn (Unit {0}) Bool
local_event reading writing event =
    if ltb_ℤ event.value (pos 0) && event.interrupted
    then again tt
    else if ltb_ℤ event.value (pos 0)
        || (ltb_ℤ (pos 0) event.value && (event.broken || event.hung_up))
    then done false
    else if ltb_ℤ (pos 0) event.value && ((reading && event.inbound) || (writing && event.outbound))
    then done true
    else again tt

unfoldable pub wait_local_round : ℕ → Bool → Bool → ℕ → Io (Turn (Unit {0}) Bool)
unfolding local_event
wait_local_round socket reading writing deadline = do
  stopping ← is_stopping
  if stopping then pure (done false) else do
    remaining ← remaining_milliseconds deadline
    if remaining == 0 then pure (done false) else do
      event ← ask (Call.poll_local socket reading writing (min remaining 100))
      pure (local_event reading writing event)

unfoldable pub wait_local_socket : ℕ → Bool → Bool → ℕ → Io Bool
unfolding wait_local_round
wait_local_socket socket reading writing deadline =
    loop (λ _. wait_local_round socket reading writing deadline) tt

-- The bytes so far and how many they are.
pub record Partial : Type 0 where
  pub output : Bytes
  pub offset : ℕ

unfoldable pub exact : ℕ → Partial → Option Bytes
exact size partial = if partial.offset == size then some partial.output else none

abbrev pub or_give_up : Partial → Bool → Turn Partial (Option Bytes)
or_give_up partial ready = if ready then again partial else done none

unfoldable pub read_reply : ℕ → ℕ → Partial → Reply → Io (Turn Partial (Option Bytes))
read_reply socket deadline partial reply =
    if ltb_ℤ (pos 0) reply.value
    then pure (
        again (record {
          output = partial.output ++ take (pos_part reply.value) reply.bytes;
          offset = partial.offset + pos_part reply.value;
        }))
    else if eqb_ℤ reply.value (pos 0)
    then pure (done none)
    else if not (is_transient reply)
    then pure (done none)
    else (wait_local_socket socket true false deadline >>= λ ready. pure (or_give_up partial ready))

unfoldable pub read_round : ℕ → ℕ → ℕ → Partial → Io (Turn Partial (Option Bytes))
unfolding read_reply exact
read_round socket size deadline partial = do
  stopping ← is_stopping
  if not (ltb partial.offset size) || stopping then pure (done (exact size partial)) else do
    reply ← ask (Call.recv socket (size - partial.offset))
    read_reply socket deadline partial reply

-- The bytes if all have been read.
unfoldable pub read_socket_exact : ℕ → ℕ → Io (Option Bytes)
unfolding read_round
read_socket_exact socket size = do
  deadline ← deadline_after 10000
  loop (read_round socket size deadline) (record { output = []; offset = 0 })

abbrev pub or_stop : ℕ → Bool → Turn ℕ Bool
or_stop offset ready = if ready then again offset else done false

unfoldable pub write_reply : ℕ → ℕ → ℕ → Reply → Io (Turn ℕ Bool)
write_reply socket deadline offset reply =
    if ltb_ℤ (pos 0) reply.value
    then pure (again (offset + pos_part reply.value))
    else if eqb_ℤ reply.value (pos 0)
    then pure (done false)
    else if not (is_transient reply)
    then pure (done false)
    else (wait_local_socket socket false true deadline >>= λ ready. pure (or_stop offset ready))

unfoldable pub write_round : ℕ → Bytes → ℕ → ℕ → Io (Turn ℕ Bool)
unfolding write_reply
write_round socket input deadline offset = do
  stopping ← is_stopping
  if not (ltb offset (length input)) || stopping then pure (done (offset == length input)) else do
    reply ← ask (Call.send socket (drop offset input))
    write_reply socket deadline offset reply

unfoldable pub write_socket_exact : ℕ → Bytes → Io Bool
unfolding write_round
write_socket_exact socket input = do
  deadline ← deadline_after 10000
  loop (write_round socket input deadline) 0

-- After a null pointer.
unfoldable pub direct_null : SessionState → Io (Turn (Unit {0}) (Option ℕ))
direct_null session = do
  error ← ask (Call.last_errno (raw session.session))
  blocked ← test_again error
  if not blocked then pure (done none) else (ask (Call.sleep 10) >> pure (again tt))

unfoldable pub direct_on : Bytes → ℕ → ℤ → Option SessionState → Io (Turn (Unit {0}) (Option ℕ))
unfolding direct_null
direct_on host port origin_port none = pure (done none)
direct_on host port origin_port (some session) = do
  opened ← ask (Call.channel_direct_tcpip (raw session.session) host port origin_port)
  on_pointer opened.pointer (direct_null session) (λ channel. pure (done (some channel)))

unfoldable pub direct_round : Bytes → Bytes → ℕ → ℤ → ℕ → Io (Turn (Unit {0}) (Option ℕ))
unfolding direct_on
direct_round session_id host port origin_port deadline = do
  stopping ← is_stopping
  if stopping then pure (done none) else do
    remaining ← remaining_milliseconds deadline
    if remaining == 0 then pure (done none) else do
      core ← look
      direct_on host port origin_port (find_authenticated_session core session_id)

unfoldable pub direct_found : Bytes → Bytes → ℕ → ℤ → Option SessionState → Io (Option ℕ)
unfolding direct_round
direct_found session_id host port origin_port none = pure none
direct_found session_id host port origin_port (some session) = do
  deadline ← session_deadline session
  loop (λ _. direct_round session_id host port origin_port deadline) tt

unfoldable pub open_direct_channel : Bytes → Bytes → ℕ → ℤ → Io (Option ℕ)
unfolding direct_found
open_direct_channel session_id host port origin_port = do
  core ← look
  direct_found session_id host port origin_port (find_authenticated_session core session_id)
