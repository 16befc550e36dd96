-- ===== src/Tests/SocksTests.antt =====
-- A SOCKS5 client of entry/src/main/cpp/native_ssh_libssh2.cpp that asks for port 22 of the host `h`.
use tabssh_harmonyos.Prelude.{
  ℕ, ◌+◌, ◌≡◌, refl, min, arith, false, [], ◌∷◌, none, some, Bytes, drop, length, codes, equal,
}
use tabssh_harmonyos.Prelude.Int.{pos}
use tabssh_harmonyos.Ssh.Calls.{
  Call, Env, Reply, Log, other, ◌>>=◌, ask, is_stopping, on_pointer, pure, loop, look, test_again,
}
use tabssh_harmonyos.Ssh.Forward.Socket.{
  read_socket_exact, write_socket_exact, open_direct_channel, direct_found,
}
use tabssh_harmonyos.Ssh.Forward.Socks.{
  Target, byte_of, has_zero, read_host, read_name, take_name, read_port, check_port, on_request,
  on_methods, on_greeting, negotiate, connect_target, handle_socks_client, send_socks_reply,
}
use tabssh_harmonyos.Ssh.Forward.Socks.Reading.{SocketReadFills}
use tabssh_harmonyos.Ssh.Forward.Socks.Connected.{Serves, handle_socks_client-Serves}
use tabssh_harmonyos.Ssh.Network.{deadline_after, remaining_milliseconds}
use tabssh_harmonyos.Prelude.Map.{lookup}
use tabssh_harmonyos.Ssh.State.{find_authenticated_session}
use tabssh_harmonyos.Tests.StreamTests.{reply, open_core, trace}

-- One method, none; then the request.
abbrev stream : Bytes
stream = 5 ∷ 1 ∷ 0 ∷ 5 ∷ 1 ∷ 0 ∷ 3 ∷ 1 ∷ b'h' ∷ 0 ∷ 22 ∷ []

abbrev asked_for : Log → ℕ
asked_for [] = 0
asked_for (Call.recv fd n ∷ log) = n + asked_for log
asked_for (_ ∷ log) = asked_for log

abbrev answered : Log → Call → Reply
answered log (Call.recv fd n) = record reply {
  value = pos (min n (length (drop (asked_for log) stream)));
  bytes = drop (asked_for log) stream;
}
answered log (Call.send fd t) = record reply { value = pos (length t) }
answered log _ = reply

abbrev refused : Log → Call → Reply
refused log (Call.channel_direct_tcpip s host port origin) = record reply { pointer = none }
refused log c = answered log c

abbrev asking : Env
asking = record {
  answer = answered;
  eagain = 36;
  key_type = λ n. other;
  attributes = λ n. record { is_directory = none; file_size = none; modified = none };
  globals = λ log. open_core;
  stopping = λ log. false;
  fuel = 3;
}

asking-SocketReadFills : SocketReadFills asking
asking-SocketReadFills = λ log socket size. omega arith

abbrev target : Target
target = record { host = b'h' ∷ []; port = 22 }

negotiate_returns : negotiate 7 asking [] ≡ some (some target, trace (negotiate 7 asking []))
unfolding negotiate on_greeting on_methods on_request read_port check_port read_host read_name
    take_name byte_of has_zero read_socket_exact write_socket_exact ◌>>=◌ ask is_stopping on_pointer
    loop pure deadline_after remaining_milliseconds
negotiate_returns = refl

-- The server refuses the connection.
abbrev refusing : Env
refusing = record asking { answer = refused }

refusing-SocketReadFills : SocketReadFills refusing
refusing-SocketReadFills = λ log socket size. omega arith

handle_returns :
    handle_socks_client (codes "session-1") 7 (pos 4000) refusing []
    ≡ some (tt, trace (handle_socks_client (codes "session-1") 7 (pos 4000) refusing []))
unfolding handle_socks_client connect_target negotiate on_greeting on_methods on_request read_port
    check_port read_host read_name take_name byte_of has_zero read_socket_exact write_socket_exact
    open_direct_channel direct_found find_authenticated_session lookup equal codes send_socks_reply
    ◌>>=◌ ask look is_stopping on_pointer test_again loop pure deadline_after remaining_milliseconds
handle_returns = refl

handle_socks_client-Serves_example :
    Serves refusing
      (codes "session-1")
      7
      (pos 4000)
      []
      (trace (handle_socks_client (codes "session-1") 7 (pos 4000) refusing []))
handle_socks_client-Serves_example =
    handle_socks_client-Serves refusing (codes "session-1") 7 (pos 4000) [] refusing-SocketReadFills
      handle_returns
