-- ===== src/Ssh/Calls.antt =====
-- What entry/src/main/cpp/native_ssh_libssh2.cpp asks of libssh2, the socket functions, the clock and
-- the file streams. None of these is implemented in the repository, so the answers are a parameter: a
-- function of the call and of all calls before it, which covers every behaviour of theirs.
use tabssh_harmonyos.Prelude.{ℕ, zero, suc, Bool, false, List, ◌∷◌, Option, none, some, Bytes, ◌==◌}
use tabssh_harmonyos.Prelude.Int.{ℤ, pos, negsuc}
use tabssh_harmonyos.Ssh.State.{Core}

-- A pointer or a descriptor is a number, a time is in nanoseconds.
pub data Call : Type 0 where
  clock_now : Call
  getaddrinfo : Bytes → ℤ → Call
  gai_strerror : ℤ → Call
  freeaddrinfo : Call
  open_socket : ℕ → Call
  set_nonblocking : ℕ → Call
  connect_socket : ℕ → ℕ → Call
  -- The descriptor, whether POLLIN and POLLOUT are asked for, and the time in milliseconds.
  poll : ℕ → Bool → Bool → ℕ → Call
  socket_error : ℕ → Call
  close_fd : ℕ → Call
  session_init : Call
  session_set_blocking : ℕ → Call
  session_handshake : ℕ → ℕ → Call
  session_hostkey : ℕ → Call
  hostkey_hash : ℕ → Call
  last_error : ℕ → Call
  last_errno : ℕ → Call
  block_directions : ℕ → Call
  -- The session, the user name, and the password; or the key's path and its passphrase, if any.
  userauth_password : ℕ → Bytes → Bytes → Call
  userauth_publickey : ℕ → Bytes → Bytes → Option Bytes → Call
  keepalive_config : ℕ → ℤ → Call
  keepalive_send : ℕ → Call
  sftp_shutdown : ℕ → Call
  session_disconnect : ℕ → Call
  session_free : ℕ → Call
  channel_open : ℕ → Call
  channel_request_pty : ℕ → Bytes → Call
  channel_shell : ℕ → Call
  channel_write : ℕ → Bytes → Call
  -- The channel, the stream and the size of the buffer.
  channel_read : ℕ → ℕ → ℕ → Call
  channel_eof : ℕ → Call
  channel_exit_status : ℕ → Call
  channel_pty_size : ℕ → ℤ → ℤ → Call
  channel_send_eof : ℕ → Call
  channel_close : ℕ → Call
  channel_free : ℕ → Call
  sftp_init : ℕ → Call
  -- The SFTP session, the path and whether the file is opened for writing, which creates or empties it.
  sftp_open : ℕ → Bytes → Bool → Call
  sftp_close_handle : ℕ → Call
  sftp_opendir : ℕ → Bytes → Call
  -- The handle and the size of the buffer.
  sftp_readdir : ℕ → ℕ → Call
  sftp_closedir : ℕ → Call
  sftp_read : ℕ → ℕ → Call
  sftp_write : ℕ → Bytes → Call
  sftp_mkdir : ℕ → Bytes → Call
  sftp_rmdir : ℕ → Bytes → Call
  sftp_unlink : ℕ → Bytes → Call
  sftp_rename : ℕ → Bytes → Bytes → Call
  sftp_set_permissions : ℕ → Bytes → ℤ → Call
  -- Streams on local files; `read` has a size, and `good` and `bad` are the tests of a stream.
  file_open_input : Bytes → Call
  file_open_output : Bytes → Call
  file_read : ℕ → ℕ → Call
  file_write : ℕ → Bytes → Call
  file_flush : ℕ → Call
  file_good : ℕ → Call
  file_bad : ℕ → Call
  file_close : ℕ → Call
  file_remove : Bytes → Call
  -- The socket of a forwarded connection: `poll` with its own tests, `recv` with a size, `send`.
  poll_local : ℕ → Bool → Bool → ℕ → Call
  recv : ℕ → ℕ → Call
  send : ℕ → Bytes → Call
  shutdown_write : ℕ → Call
  -- An address of four or sixteen bytes as text.
  inet_ntop : Bytes → Call
  -- The session, the host, its port and the port of the client.
  channel_direct_tcpip : ℕ → Bytes → ℕ → ℤ → Call
  sleep : ℕ → Call
  -- A TCP socket, its address on the loopback interface, and `listen` with its queue.
  listener_socket : Call
  bind_loopback : ℕ → ℕ → Call
  listen_on : ℕ → ℕ → Call
  -- The session and the port to listen on; the listener.
  forward_listen : ℕ → ℕ → Call
  forward_cancel : ℕ → Call
  -- The thread of a forward: its start, which fails with another value than 0, the flag that tells it to
  -- stop, its end, and the end of its connections.
  start_thread : Bytes → Call
  set_stopping : Bytes → Call
  join_thread : Bytes → Call
  await_connections : Bytes → Call

-- What a call leaves behind: its value, the pointer or descriptor that it returns (`none` is null, or
-- a negative descriptor), the bytes or the addresses that it hands out, the number that it stores
-- through an argument, and the tests that the program makes on errno, on
-- `revents` and on the block directions.
pub record Reply : Type 0 where
  pub value : ℤ
  pub pointer : Option ℕ
  pub bytes : Bytes
  pub number : ℕ
  pub interrupted : Bool
  pub in_progress : Bool
  pub would_block : Bool
  pub broken : Bool
  pub writable : Bool
  pub inbound : Bool
  pub outbound : Bool
  pub hung_up : Bool

-- The calls made so far, the last one first.
abbrev pub Log : Type 0
Log = List Call

-- The constants LIBSSH2_HOSTKEY_TYPE_*.
pub data KeyType : Type 0 where
  rsa dss ecdsa_256 ecdsa_384 ecdsa_521 ed25519 other : KeyType

-- What LIBSSH2_SFTP_ATTRIBUTES say of a file: `none` where the flag of a part is not set.
pub record Attributes : Type 0 where
  pub is_directory : Option Bool
  pub file_size : Option ℕ
  pub modified : Option ℕ

-- The answers; LIBSSH2_ERROR_EAGAIN, as -(eagain + 1); which constant a key type is; the attributes
-- that a number stored by a call stands for; the globals and the flag `stopping` as other threads have
-- left them, for a thread that only reads them; and the rounds that a loop is run for.
pub record Env : Type 0 where
  pub answer : Log → Call → Reply
  pub eagain : ℕ
  pub key_type : ℕ → KeyType
  pub attributes : ℕ → Attributes
  pub globals : Log → Core
  pub stopping : Log → Bool
  pub fuel : ℕ

-- `none`: a loop has used up its rounds.
abbrev pub Io : Type 0 → Type 0
Io A = Env → Log → Option (A × Log)

unfoldable pub pure : {A : Type 0} → A → Io A
pure a env log = some (a, log)

abbrev pub continue : {A B : Type 0} → (A → Io B) → Env → Option (A × Log) → Option (B × Log)
continue f env none = none
continue f env (some (a, log)) = f a env log

infixl 5 ◌>>=◌ ◌>>◌
unfoldable pub ◌>>=◌ : {A B : Type 0} → Io A → (A → Io B) → Io B
◌>>=◌ m f env log = continue f env (m env log)

abbrev pub ◌>>◌ : {A B : Type 0} → Io A → Io B → Io B
m >> k = m >>= λ _. k

unfoldable pub ask : Call → Io Reply
ask call env log = some (env.answer log call, call ∷ log)

unfoldable pub is_again : Env → Reply → Bool
is_again env reply = elim reply.value [ pos n ↦ false | negsuc n ↦ n == env.eagain ]

-- Which of two actions follows a test that depends on the environment's constant.
unfoldable pub test_again : Reply → Io Bool
unfolding is_again
test_again reply env log = some (is_again env reply, log)

-- What a worker reads under `g_mutex`, and its flag.
unfoldable pub look : Io Core
look env log = some (env.globals log, log)

unfoldable pub is_stopping : Io Bool
is_stopping env log = some (env.stopping log, log)

-- What follows a null pointer or a negative descriptor, and what follows another.
unfoldable pub on_pointer : {A : Type 0} → Option ℕ → Io A → (ℕ → Io A) → Io A
on_pointer none absent present = absent
on_pointer (some p) absent present = present p

-- The end of one round of a loop: go round again, or leave with a result.
pub data Turn (S A : Type 0) : Type 0 where
  again : S → Turn S A
  done : A → Turn S A

abbrev pub turn : {S A : Type 0} → (S → Io A) → Turn S A → Io A
turn rest (again s) = rest s
turn rest (done a) = pure a

unfoldable pub rounds : {S A : Type 0} → ℕ → (S → Io (Turn S A)) → S → Io A
rounds zero body s env log = none
rounds (suc fuel) body s env log = (body s >>= turn (rounds fuel body)) env log

unfoldable pub loop : {S A : Type 0} → (S → Io (Turn S A)) → S → Io A
unfolding rounds
loop body s env log = rounds env.fuel body s env log
