-- ===== src/Ssh/Forward/Socks.antt =====
-- `SendSocksReply` and `HandleSocksClient` of entry/src/main/cpp/native_ssh_libssh2.cpp.
pub mod Reading
pub mod Address
pub mod Directed
pub mod Requested
pub mod Connected
use tabssh_harmonyos.Prelude.{
  ℕ, zero, suc, ◌+◌, ◌*◌, Bool, true, false, not, ◌&&◌, ◌||◌, [], ◌∷◌, Option, none, some, Bytes,
  length, ltb, leb, ◌==◌, if◌then◌else◌,
}
use tabssh_harmonyos.Prelude.Int.{ℤ, pos, negsuc}
use tabssh_harmonyos.Ssh.Calls.{Call, Reply, Io, pure, ◌>>=◌, ◌>>◌, ask, on_pointer}
use tabssh_harmonyos.Ssh.Forward.Relay.{relay_forward_connection, close_forward_channel}
use tabssh_harmonyos.Ssh.Forward.Socket.{read_socket_exact, write_socket_exact, open_direct_channel}

-- An element of a buffer, which is in range where it is read.
unfoldable pub byte_of : ℕ → Bytes → ℕ
byte_of i [] = 0
byte_of zero (c ∷ s) = c
byte_of (suc i) (c ∷ s) = byte_of i s

unfoldable pub has_zero : Bytes → Bool
has_zero [] = false
has_zero (c ∷ s) = c == 0 || has_zero s

unfoldable pub is_valid_forward_port : ℕ → Bool
is_valid_forward_port port = leb 1 port && leb port 65535

unfoldable pub send_socks_reply : ℕ → ℕ → Io Bool
send_socks_reply client code =
    write_socket_exact client (5 ∷ code ∷ 0 ∷ 1 ∷ 0 ∷ 0 ∷ 0 ∷ 0 ∷ 0 ∷ 0 ∷ [])

-- The host and the port that a client asks for.
pub record Target : Type 0 where
  pub host : Bytes
  pub port : ℕ

-- The ends of a negotiation without a target.
abbrev pub close_client : {A : Type 0} → ℕ → Io (Option A)
close_client client = ask (Call.close_fd client) >> pure none

abbrev pub refuse : {A : Type 0} → ℕ → ℕ → Io (Option A)
refuse client code = send_socks_reply client code >> close_client client

-- An address of four or sixteen bytes.
unfoldable pub read_address : ℕ → Option Bytes → Io (Option Bytes)
read_address client none = refuse client 8
read_address client (some bytes) = do
  text ← ask (Call.inet_ntop bytes)
  on_pointer text.pointer (refuse client 8) (λ _. pure (some text.bytes))

unfoldable pub take_name : ℕ → Option Bytes → Io (Option Bytes)
take_name client none = close_client client
take_name client (some bytes) = pure (some bytes)

unfoldable pub read_name : ℕ → Option Bytes → Io (Option Bytes)
unfolding take_name
read_name client none = refuse client 8
read_name client (some size) =
    if byte_of 0 size == 0
    then refuse client 8
    else (read_socket_exact client (byte_of 0 size) >>= take_name client)

unfoldable pub read_host : ℕ → ℕ → Io (Option Bytes)
unfolding read_address read_name
read_host client kind =
    if kind == 1
    then (read_socket_exact client 4 >>= read_address client)
    else if kind == 3
    then (read_socket_exact client 1 >>= read_name client)
    else if kind == 4
    then (read_socket_exact client 16 >>= read_address client)
    else refuse client 8

unfoldable pub check_port : ℕ → Bytes → Option Bytes → Io (Option Target)
unfolding is_valid_forward_port
check_port client host none = close_client client
check_port client host (some bytes) =
    let port = byte_of 0 bytes * 256 + byte_of 1 bytes in
    if not (is_valid_forward_port port)
    then refuse client 1
    else pure (some (record { host = host; port = port }))

unfoldable pub read_port : ℕ → Option Bytes → Io (Option Target)
unfolding check_port
read_port client none = pure none
read_port client (some host) = read_socket_exact client 2 >>= check_port client host

unfoldable pub on_request : ℕ → Option Bytes → Io (Option Target)
unfolding read_port
on_request client none = refuse client 1
on_request client (some request) =
    if not (byte_of 0 request == 5) || not (byte_of 2 request == 0)
    then refuse client 1
    else if not (byte_of 1 request == 1)
    then refuse client 7
    else (read_host client (byte_of 3 request) >>= read_port client)

unfoldable pub method_reply : Bytes → Bytes
method_reply methods = 5 ∷ (if has_zero methods then 0 else 255) ∷ []

unfoldable pub on_methods : ℕ → Option Bytes → Io (Option Target)
unfolding on_request method_reply
on_methods client none = close_client client
on_methods client (some methods) = do
  written ← write_socket_exact client (method_reply methods)
  if not written || not (has_zero methods)
      then close_client client
      else (read_socket_exact client 4 >>= on_request client)

unfoldable pub on_greeting : ℕ → Option Bytes → Io (Option Target)
unfolding on_methods
on_greeting client none = close_client client
on_greeting client (some greeting) =
    if not (byte_of 0 greeting == 5) || byte_of 1 greeting == 0
    then close_client client
    else (read_socket_exact client (byte_of 1 greeting) >>= on_methods client)

-- The first part of `HandleSocksClient`: the target, or nothing once the client has been closed.
unfoldable pub negotiate : ℕ → Io (Option Target)
unfolding on_greeting
negotiate client = read_socket_exact client 2 >>= on_greeting client

unfoldable pub after_success : Bytes → ℕ → ℕ → Bool → Io (Unit {0})
after_success session_id client channel sent =
    if not sent
    then (ask (Call.close_fd client) >> close_forward_channel session_id channel)
    else (relay_forward_connection session_id channel client >> pure tt)

unfoldable pub connect_target : Bytes → ℕ → ℤ → Option Target → Io (Unit {0})
unfolding after_success
connect_target session_id client origin_port none = pure tt
connect_target session_id client origin_port (some target) = do
  opened ← open_direct_channel session_id target.host target.port origin_port
  on_pointer opened (send_socks_reply client 5 >> ask (Call.close_fd client) >> pure tt)
      (λ channel. send_socks_reply client 0 >>= after_success session_id client channel)

unfoldable pub handle_socks_client : Bytes → ℕ → ℤ → Io (Unit {0})
unfolding negotiate connect_target
handle_socks_client session_id client origin_port =
    negotiate client >>= connect_target session_id client origin_port
