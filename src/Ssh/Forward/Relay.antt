-- ===== src/Ssh/Forward/Relay.antt =====
-- `RelayForwardConnection` and `CloseForwardChannel` of entry/src/main/cpp/native_ssh_libssh2.cpp.
pub mod Buffers
pub mod Flow
pub mod Balance
pub mod Exchange
pub mod InOrder
use tabssh_harmonyos.Prelude.{
  ℕ, ◌+◌, ◌-◌, Bool, true, false, not, ◌&&◌, ◌||◌, [], ◌++◌, Option, none, some, Bytes, drop,
  length, ltb, take, ◌==◌, if◌then◌else◌,
}
use tabssh_harmonyos.Prelude.Int.{ℤ, pos, pos_part, ltb_ℤ, eqb_ℤ}
use tabssh_harmonyos.Prelude.Map.{lookup}
use tabssh_harmonyos.Ssh.Calls.{
  Call, Reply, Io, pure, ◌>>=◌, ◌>>◌, ask, test_again, look, is_stopping, on_pointer, Turn, again,
  done, loop,
}
use tabssh_harmonyos.Ssh.Channel.{close_channel_internal}
use tabssh_harmonyos.Ssh.State.{SessionState, Core, find_authenticated_session}

-- The local variables: for each direction the buffer and how much of it has been passed on, and the
-- flags.
pub record Buffer : Type 0 where
  pub text : Bytes
  pub offset : ℕ

pub record Relay : Type 0 where
  pub to_ssh : Buffer
  pub to_socket : Buffer
  pub socket_read_closed : Bool
  pub socket_write_closed : Bool
  pub channel_eof_sent : Bool
  pub channel_read_closed : Bool
  pub fatal : Bool

abbrev pub empty_buffer : Buffer
empty_buffer = record { text = []; offset = 0 }

abbrev pub new_relay : Relay
new_relay = record {
  to_ssh = empty_buffer;
  to_socket = empty_buffer;
  socket_read_closed = false;
  socket_write_closed = false;
  channel_eof_sent = false;
  channel_read_closed = false;
  fatal = false;
}

unfoldable pub is_drained : Buffer → Bool
is_drained buffer = buffer.offset == length buffer.text

-- A buffer that is drained starts again.
unfoldable pub recycle : Buffer → Buffer
unfolding is_drained
recycle buffer = if is_drained buffer then empty_buffer else buffer

unfoldable pub has_room : Buffer → Bool
has_room buffer = ltb (length buffer.text - buffer.offset) 262144

unfoldable pub has_pending : Buffer → Bool
has_pending buffer = ltb buffer.offset (length buffer.text)

unfoldable pub pending : Buffer → Bytes
pending buffer = drop buffer.offset buffer.text

unfoldable pub fill : Reply → Buffer → Buffer
fill reply buffer = record buffer { text = buffer.text ++ take (pos_part reply.value) reply.bytes }

unfoldable pub advance : Reply → Buffer → Buffer
advance reply buffer = record buffer { offset = buffer.offset + pos_part reply.value }

unfoldable pub is_transient : Reply → Bool
is_transient reply = reply.would_block || reply.interrupted

-- What `recv` has left.
unfoldable pub received : Relay → Reply → Relay
unfolding fill is_transient
received relay reply =
    if ltb_ℤ (pos 0) reply.value
    then record relay { to_ssh = fill reply relay.to_ssh }
    else if eqb_ℤ reply.value (pos 0)
    then record relay { socket_read_closed = true }
    else if not (is_transient reply)
    then record relay { socket_read_closed = true }
    else relay

unfoldable pub receive : ℕ → Relay → Reply → Io Relay
unfolding received
receive socket relay event =
    if ltb_ℤ (pos 0) event.value && event.inbound
    then (ask (Call.recv socket 32768) >>= λ reply. pure (received relay reply))
    else pure relay

-- What `send` has left.
unfoldable pub sent_out : Relay → Reply → Relay
unfolding advance is_transient
sent_out relay reply =
    if ltb_ℤ (pos 0) reply.value
    then record relay { to_socket = advance reply relay.to_socket }
    else if ltb_ℤ reply.value (pos 0) && not (is_transient reply)
    then record relay { fatal = true }
    else relay

unfoldable pub send_out : ℕ → Relay → Reply → Io Relay
unfolding sent_out
send_out socket relay event =
    if ltb_ℤ (pos 0) event.value && (event.outbound && has_pending relay.to_socket)
    then (ask (Call.send socket (pending relay.to_socket)) >>= λ reply. pure (sent_out relay reply))
    else pure relay

-- POLLERR or POLLNVAL, and POLLHUP.
unfoldable pub note_events : Relay → Reply → Relay
note_events relay event =
    let happened = ltb_ℤ (pos 0) event.value in
    record relay {
      fatal = (happened && event.broken) || relay.fatal;
      socket_read_closed = (happened && event.hung_up) || relay.socket_read_closed;
    }

unfoldable pub channel_written : Relay → Reply → Bool → Relay
unfolding advance
channel_written relay reply blocked =
    if ltb_ℤ (pos 0) reply.value
    then record relay { to_ssh = advance reply relay.to_ssh }
    else if not blocked && not (eqb_ℤ reply.value (pos 0))
    then record relay { fatal = true }
    else relay

unfoldable pub write_channel : ℕ → Relay → Io Relay
unfolding channel_written
write_channel channel relay =
    if has_pending relay.to_ssh
    then (do
      reply ← ask (Call.channel_write channel (pending relay.to_ssh))
      blocked ← test_again reply
      pure (channel_written relay reply blocked))
    else pure relay

unfoldable pub eof_sent : Relay → Reply → Bool → Relay
eof_sent relay reply blocked =
    if eqb_ℤ reply.value (pos 0)
    then record relay { channel_eof_sent = true }
    else if not blocked
    then record relay { fatal = true }
    else relay

unfoldable pub send_eof : ℕ → Relay → Io Relay
unfolding eof_sent
send_eof channel relay =
    if relay.socket_read_closed && (is_drained relay.to_ssh && not relay.channel_eof_sent)
    then (do
      reply ← ask (Call.channel_send_eof channel)
      blocked ← test_again reply
      pure (eof_sent relay reply blocked))
    else pure relay

unfoldable pub channel_read : Relay → Reply → Bool → Relay
unfolding fill
channel_read relay reply blocked =
    if ltb_ℤ (pos 0) reply.value
    then record relay { to_socket = fill reply relay.to_socket }
    else if not blocked && ltb_ℤ reply.value (pos 0)
    then record relay { fatal = true }
    else relay

unfoldable pub read_channel : ℕ → Relay → Io Relay
unfolding channel_read
read_channel channel relay =
    if not relay.channel_read_closed && has_room relay.to_socket
    then (do
      reply ← ask (Call.channel_read channel 0 32768)
      blocked ← test_again reply
      pure (channel_read relay reply blocked))
    else pure relay

unfoldable pub test_eof : ℕ → Relay → Io Relay
test_eof channel relay = do
  reply ← ask (Call.channel_eof channel)
  pure (record relay { channel_read_closed = not (eqb_ℤ reply.value (pos 0)) })

-- What is done under `g_mutex`.
unfoldable pub exchange : ℕ → Relay → Option SessionState → Io Relay
exchange channel relay none = pure (record relay { fatal = true })
exchange channel relay (some session) = do
  written ← write_channel channel relay
  closed ← send_eof channel written
  filled ← read_channel channel closed
  test_eof channel filled

unfoldable pub shut_down : ℕ → Relay → Io Relay
shut_down socket relay =
    if relay.channel_read_closed && (is_drained relay.to_socket && not relay.socket_write_closed)
    then (ask (Call.shutdown_write socket) >> pure (record relay { socket_write_closed = true }))
    else pure relay

unfoldable pub is_finished : Relay → Bool
is_finished relay =
    (relay.socket_read_closed && relay.channel_read_closed)
    && (is_drained relay.to_ssh && is_drained relay.to_socket)

unfoldable pub end_round : Relay → Turn Relay Relay
unfolding is_finished
end_round relay = if is_finished relay then done relay else again relay

-- What follows `poll`.
unfoldable pub relay_events : Bytes → ℕ → ℕ → Relay → Reply → Io (Turn Relay Relay)
unfolding exchange
relay_events session_id channel socket relay event = do
  filled ← receive socket relay event
  drained ← send_out socket filled event
  core ← look
  exchanged ←
      exchange channel (note_events drained event) (find_authenticated_session core session_id)
  finished ← shut_down socket exchanged
  pure (end_round finished)

unfoldable pub recycled : Relay → Relay
unfolding recycle
recycled relay = record relay { to_ssh = recycle relay.to_ssh; to_socket = recycle relay.to_socket }

unfoldable pub relay_round : Bytes → ℕ → ℕ → Relay → Io (Turn Relay Relay)
unfolding relay_events
relay_round session_id channel socket relay = do
  stopping ← is_stopping
  if stopping || relay.fatal
      then pure (done relay)
      else (let ready = recycled relay in
          ask (
            Call.poll_local socket (not ready.socket_read_closed && has_room ready.to_ssh)
              (has_pending ready.to_socket) 20)
          >>= λ event.
              if ltb_ℤ event.value (pos 0) && not event.interrupted
              then pure (done ready)
              else relay_events session_id channel socket ready event)

unfoldable pub relay_loop : Bytes → ℕ → ℕ → Io Relay
unfolding relay_round
relay_loop session_id channel socket = loop (relay_round session_id channel socket) new_relay

unfoldable pub close_on : ℕ → Option SessionState → Io (Unit {0})
close_on channel none = pure tt
close_on channel (some session) =
    on_pointer session.session (pure tt) (λ _. close_channel_internal session channel)

unfoldable pub close_forward_channel : Bytes → ℕ → Io (Unit {0})
unfolding close_on
close_forward_channel session_id channel =
    look >>= λ core. close_on channel (lookup session_id core.sessions)

-- The state of the loop at its end is the result here; the source forgets it.
unfoldable pub relay_forward_connection : Bytes → ℕ → ℕ → Io Relay
unfolding relay_loop close_forward_channel
relay_forward_connection session_id channel socket = do
  relay ← relay_loop session_id channel socket
  ask (Call.close_fd socket)
  close_forward_channel session_id channel
  pure relay
