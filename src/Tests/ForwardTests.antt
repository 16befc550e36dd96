-- ===== src/Tests/ForwardTests.antt =====
-- Forwards of entry/src/main/cpp/native_ssh_libssh2.cpp: a connection that sends two bytes each way and is
-- closed, and two forwards of which one is stopped.
use tabssh_harmonyos.Prelude.{
  ℕ, ◌≡◌, refl, min, arith, Bool, true, false, [], ◌∷◌, none, some, Bytes, codes, equal, length,
}
use tabssh_harmonyos.Prelude.Int.{pos}
use tabssh_harmonyos.Prelude.Map.{Map, lookup, insert}
use tabssh_harmonyos.Ssh.Calls.{
  Call, Env, Reply, Log, other, ◌>>=◌, ask, look, is_stopping, on_pointer, pure, test_again, loop,
}
use tabssh_harmonyos.Ssh.Channel.{close_channel_internal}
use tabssh_harmonyos.Ssh.Forward.Relay.{
  Relay, new_relay, pending, has_pending, has_room, is_drained, is_finished, end_round, receive,
  send_out, note_events, write_channel, send_eof, read_channel, test_eof, shut_down, recycled,
  relay_forward_connection,
}
use tabssh_harmonyos.Ssh.Forward.Relay.Balance.{SocketTakesOffered}
use tabssh_harmonyos.Ssh.Forward.Relay.Flow.{relayed}
use tabssh_harmonyos.Ssh.Forward.Relay.InOrder.{PassedOn, relay_forward_connection-in_order}
use tabssh_harmonyos.Ssh.Forward.Adding.{listen_forward}
use tabssh_harmonyos.Ssh.Forward.Adding.Listeners.{Added, open_listeners, listen_forward-Added}
use tabssh_harmonyos.Ssh.Forward.Table.{create_loopback_listener, ForwardState, local_forward}
use tabssh_harmonyos.Ssh.Forward.Table.Stopped.{AllClean}
use tabssh_harmonyos.Ssh.Network.{deadline_after, retry}
use tabssh_harmonyos.Ssh.State.{find_authenticated_session}
use tabssh_harmonyos.Ssh.Terminal.Written.{TakesOffered}
use tabssh_harmonyos.Tests.StreamTests.{reply, open_core, trace}

abbrev text : Bytes
text = b'x' ∷ b'y' ∷ []

abbrev has_received : Log → Bool
has_received [] = false
has_received (Call.recv fd n ∷ log) = true
has_received (_ ∷ log) = has_received log

abbrev has_read : Log → Bool
has_read [] = false
has_read (Call.channel_read c s n ∷ log) = true
has_read (_ ∷ log) = has_read log

abbrev contents : Bool → Bytes
contents true = []
contents false = text

abbrev flag : Bool → ℕ
flag true = 1
flag false = 0

abbrev passed : Log → Call → Reply
passed log (Call.channel_write c t) = record reply { value = pos (min 1 (length t)) }
passed log (Call.send fd t) = record reply { value = pos (min 1 (length t)) }
passed log (Call.recv fd n) = record reply {
  value = pos (length (contents (has_received log)));
  bytes = contents (has_received log);
}
passed log (Call.channel_read c s n) = record reply {
  value = pos (length (contents (has_read log)));
  bytes = contents (has_read log);
}
passed log (Call.channel_eof c) = record reply { value = pos (flag (has_read log)) }
passed log (Call.poll_local fd i o t) = record reply { value = pos 1; inbound = i; outbound = o }
passed log _ = reply

abbrev pub relaying : Env
relaying = record {
  answer = passed;
  eagain = 36;
  key_type = λ n. other;
  attributes = λ n. record { is_directory = none; file_size = none; modified = none };
  globals = λ log. open_core;
  stopping = λ log. false;
  fuel = 6;
}

relaying-TakesOffered : TakesOffered relaying
relaying-TakesOffered = λ log channel t. omega arith

relaying-SocketTakesOffered : SocketTakesOffered relaying
relaying-SocketTakesOffered = λ log socket t. omega arith

abbrev relay_end : Relay
relay_end = record new_relay {
  to_socket = record { text = text; offset = 2 };
  socket_read_closed = true;
  socket_write_closed = true;
  channel_eof_sent = true;
  channel_read_closed = true;
}

relay_returns :
    relay_forward_connection (codes "session-1") 5 7 relaying []
    ≡ some (relay_end, trace (relay_forward_connection (codes "session-1") 5 7 relaying []))
unfolding relay_forward_connection recycled end_round is_drained has_pending has_room pending
    receive send_out note_events write_channel send_eof read_channel test_eof shut_down
    find_authenticated_session lookup equal codes ◌>>=◌ ask look is_stopping on_pointer test_again
    loop pure deadline_after retry close_channel_internal
relay_returns = refl

relay_forward_connection-in_order_example :
    PassedOn
      (relayed 5 7 relaying [])
      (relayed 5 7 relaying (trace (relay_forward_connection (codes "session-1") 5 7 relaying [])))
      (is_finished relay_end)
relay_forward_connection-in_order_example =
    relay_forward_connection-in_order relaying (codes "session-1") 5 7 [] relaying-TakesOffered
      relaying-SocketTakesOffered relay_returns

abbrev forward : Bytes → Bytes → ForwardState
forward id session_id = record {
  id = id;
  session_id = session_id;
  kind = local_forward;
  target_host = codes "t";
  bind_port = 8080;
  target_port = 80;
  listen_fd = some 9;
  remote_listener = none;
  stopped = false;
}

abbrev pub table : Map ForwardState
table =
    (codes "forward-local-1", forward (codes "forward-local-1") (codes "session-1"))
    ∷ (codes "forward-local-2", forward (codes "forward-local-2") (codes "session-2"))
    ∷ []

abbrev stopped_forward : ForwardState
stopped_forward = record (forward (codes "forward-local-1") (codes "session-1")) {
  listen_fd = none;
  stopped = true;
}

abbrev pub other_table : Map ForwardState
other_table = (codes "forward-local-2", forward (codes "forward-local-2") (codes "session-2")) ∷ []

pub table-AllClean : AllClean table
table-AllClean = ((λ h. absurd (cc)), ((λ h. absurd (cc)), tt))

abbrev new_forward : ForwardState
new_forward = record (forward (codes "forward-local-3") (codes "session-1")) { listen_fd = none }

abbrev listening : Map ForwardState
listening = insert new_forward.id (record new_forward { listen_fd = some 3 }) table

listen_returns :
    listen_forward new_forward table relaying []
    ≡ some
        ((codes "forward-local-3", listening), trace (listen_forward new_forward table relaying []))
unfolding listen_forward create_loopback_listener find_authenticated_session lookup insert equal
    codes ◌>>=◌ ask look on_pointer pure
listen_returns = refl

listen_forward-Added_example :
    Added relaying
      (open_listeners relaying [])
      new_forward
      table
      (codes "forward-local-3", listening)
      (trace (listen_forward new_forward table relaying []))
listen_forward-Added_example = listen_forward-Added relaying new_forward table [] listen_returns
