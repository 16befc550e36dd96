-- ===== src/Tests/StreamTests.antt =====
-- Reading in entry/src/main/cpp/native_ssh_libssh2.cpp, on an authenticated session
-- with a channel.
use tabssh_harmonyos.Prelude.{
  ℕ, ◌≤◌, ◌<◌, ◌≡◌, refl, min, Bool, true, false, [], ◌∷◌, Option, none, some, Bytes, codes, equal,
  length, arith,
}
use tabssh_harmonyos.Prelude.Int.{pos}
use tabssh_harmonyos.Prelude.Map.{lookup}
use tabssh_harmonyos.Profile.{success}
use tabssh_harmonyos.Ssh.Calls.{Call, Env, Reply, Log, other, ◌>>=◌, ask, pure, test_again, loop}
use tabssh_harmonyos.Ssh.History.{initial}
use tabssh_harmonyos.Ssh.State.{SessionState, Core, new_session}
use tabssh_harmonyos.Ssh.Terminal.{read}
use tabssh_harmonyos.Ssh.Terminal.Bounds.{FillsBuffer, read-bounded}

abbrev pub reply : Reply
reply = record {
  value = pos 0;
  pointer = some 3;
  bytes = b'x' ∷ b'y' ∷ [];
  number = 1;
  interrupted = false;
  in_progress = false;
  would_block = false;
  broken = false;
  writable = true;
  inbound = false;
  outbound = false;
  hung_up = false;
}

-- The first read gives a byte, the next ones nothing; all else succeeds.
abbrev after_read : Log → Bool
after_read (Call.channel_read c s n ∷ log) = true
after_read _ = false

abbrev quantity : Bool → Call → ℕ
quantity false (Call.channel_read c s n) = min 1 n
quantity _ _ = 0

abbrev chatty : Env
chatty = record {
  answer = λ log call. record reply { value = pos (quantity (after_read log) call) };
  eagain = 36;
  key_type = λ n. other;
  attributes = λ n. record { is_directory = none; file_size = none; modified = none };
  globals = λ log. initial (pos 0);
  stopping = λ log. false;
  fuel = 3;
}

quantity-small :
    (b : Bool) (channel stream size : ℕ) → quantity b (Call.channel_read channel stream size) ≤ size
quantity-small true channel stream size = omega arith
quantity-small false channel stream size = omega arith

chatty-FillsBuffer : FillsBuffer chatty
chatty-FillsBuffer = λ log channel stream size. quantity-small (after_read log) channel stream size

abbrev pub session : SessionState
session =
    record (new_session (record {
      host = codes "h";
      port = pos 22;
      username = codes "u";
      auth_type = codes "password";
      password = codes "p";
      private_key_path = [];
      private_key_passphrase = [];
      terminal_type = codes "xterm";
      expected_host_key = codes "SHA256:BQ";
      keep_alive_seconds = pos 60;
      timeout_milliseconds = pos 15000;
    })) {
      socket_fd = some 3;
      session = some 4;
      handshake_complete = true;
      host_key_confirmed = true;
      authenticated = true;
      observed_host_key = codes "SHA256:BQ";
    }

abbrev pub open_core : Core
open_core = record {
  sessions = (codes "session-1", session) ∷ [];
  channels =
      (
        codes "channel-2",
        record { session_id = codes "session-1"; channel = 5; cols = pos 80; rows = pos 24 },
      )
      ∷ [];
  counter = 3;
  runtime_status = pos 0;
}

abbrev one_byte : Bytes
one_byte = b'x' ∷ []

-- The log of a run.
abbrev pub trace : {A : Type 0} → Option (A × Log) → Log
trace none = []
trace (some (a, log)) = log

read_returns :
    read (codes "channel-2") open_core chatty []
    ≡ some (success (codes "read") one_byte, trace (read (codes "channel-2") open_core chatty []))
unfolding read lookup equal codes ◌>>=◌ ask test_again loop pure
read_returns = refl

read-bounded_example : length one_byte < 278528
read-bounded_example =
    read-bounded chatty (codes "channel-2") open_core [] chatty-FillsBuffer read_returns
