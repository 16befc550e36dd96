-- ===== src/Tests/WaitTests.antt =====
-- `Authenticate` of entry/src/main/cpp/native_ssh_libssh2.cpp against a server that never answers.
use tabssh_harmonyos.Prelude.{none, ◌*◌, refl, true, false, [], some, codes, arith}
use tabssh_harmonyos.Prelude.Int.{ℤ, pos, negsuc}
use tabssh_harmonyos.Ssh.Authenticate.{authenticate}
use tabssh_harmonyos.Ssh.Calls.{Call, Env, other}
use tabssh_harmonyos.Ssh.History.{initial}
use tabssh_harmonyos.Ssh.State.{SessionState, new_session}
use tabssh_harmonyos.Ssh.Waits.{looks, Passes, Returns}
use tabssh_harmonyos.Ssh.Waits.Authentication.{deadline_at, authenticate-Returns}

-- The socket is always ready; every other call answers LIBSSH2_ERROR_EAGAIN.
abbrev status : Call → ℤ
status (Call.poll fd inbound outbound timeout) = pos 1
status _ = negsuc 36

-- Each reading of the clock is a second after the one before.
abbrev stubborn : Env
stubborn = record {
  answer = λ log call. record {
    value = status call;
    pointer = some 3;
    bytes = [];
    number = looks log * 1000000000;
    interrupted = false;
    in_progress = false;
    would_block = false;
    broken = false;
    writable = true;
    inbound = true;
    outbound = false;
    hung_up = false;
  };
  eagain = 36;
  key_type = λ n. other;
  attributes = λ n. record { is_directory = none; file_size = none; modified = none };
  globals = λ log. initial (pos 0);
  stopping = λ log. false;
  fuel = 16;
}

abbrev waiting : SessionState
waiting = new_session (record {
  host = codes "h";
  port = pos 22;
  username = codes "u";
  auth_type = codes "password";
  password = codes "p";
  private_key_path = [];
  private_key_passphrase = [];
  terminal_type = codes "xterm";
  expected_host_key = [];
  keep_alive_seconds = pos 60;
  timeout_milliseconds = pos 15000;
})

stubborn-Passes : Passes stubborn (deadline_at stubborn [] waiting) 15
unfolding looks
stubborn-Passes = λ log h. omega arith

authenticate-Returns_example : Returns (authenticate waiting) stubborn []
authenticate-Returns_example =
    authenticate-Returns stubborn waiting [] 15 (λ log call. refl) stubborn-Passes (omega arith)
