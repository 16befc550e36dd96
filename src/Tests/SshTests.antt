-- ===== src/Tests/SshTests.antt =====
-- A run of entry/src/main/cpp/native_ssh_libssh2.cpp from start-up to an authenticated session, against
-- a server whose key is the expected one, and the theorems on it.
use tabssh_harmonyos.Prelude.{
  ◌≡◌, ◌≢◌, refl, true, false, [], ◌∷◌, Option, none, some, Bytes, codes, equal, decimal,
}
use tabssh_harmonyos.Prelude.Int.{pos}
use tabssh_harmonyos.Json.Result.{NativeResult}
use tabssh_harmonyos.Prelude.Map.{lookup, insert}
use tabssh_harmonyos.Ssh.Effects.{sent}
use tabssh_harmonyos.Ssh.Calls.{Call, ◌>>=◌, ask, on_pointer, pure, test_again, loop}
use tabssh_harmonyos.Profile.{invalid_profile_result}
use tabssh_harmonyos.Json.Find.{json_string, json_int}
use tabssh_harmonyos.Ssh.Handshake.{
  ensure_handshake, capture_host_key, observe, finish_handshake, after_handshake, host_key_data,
  key_type_of,
}
use tabssh_harmonyos.Ssh.Network.{connect_tcp, deadline_after, retry, wait_socket}
use tabssh_harmonyos.Ssh.Authenticate.{authenticate}
use tabssh_harmonyos.Fingerprint.{constant_time_equal, base64}
use tabssh_harmonyos.Json.Escape.{escape_json}
use tabssh_harmonyos.Json.Parse.{code_point, unescape}
use tabssh_harmonyos.Json.Utf8.{append_utf8}
use tabssh_harmonyos.Ssh.Calls.{Env, Reply, Log, other}
use tabssh_harmonyos.Ssh.History.{initial, Reach, start, next, creates, connects}
use tabssh_harmonyos.Ssh.Session.{create_session, connect}
use tabssh_harmonyos.Ssh.History.Safety.{
  SafeSends, Reach-AllTrusted, find_authenticated_session-trusted, Reach-SafeSends,
}
use tabssh_harmonyos.Ssh.Trust.Globals.{ConnectSafe, connect-ConnectSafe}
use tabssh_harmonyos.Ssh.State.{SessionState, Core, find_authenticated_session}

-- Every call succeeds at once, with one address and a key hash of one byte.
abbrev reply : Reply
reply = record {
  value = pos 0;
  pointer = some 3;
  bytes = 5 ∷ [];
  number = 1;
  interrupted = false;
  in_progress = false;
  would_block = false;
  broken = false;
  writable = true;
  inbound = false;
  outbound = false;
  hung_up = false;
}

abbrev willing : Env
willing = record {
  answer = λ log call. reply;
  eagain = 36;
  key_type = λ n. other;
  attributes = λ n. record { is_directory = none; file_size = none; modified = none };
  globals = λ log. initial (pos 0);
  stopping = λ log. false;
  fuel = 1;
}

abbrev profile_text : Bytes
profile_text =
    codes
      "{\"host\":\"h\",\"username\":\"u\",\"password\":\"p\",\"hostKeyFingerprint\":\"SHA256:BQ\"}"

abbrev id : Bytes
id = codes "session-1"

abbrev created : Core
created = (create_session profile_text (initial (pos 0))).1

-- What a run leaves; nothing at all if it has not returned.
abbrev run : Option ((NativeResult × Core) × Log) → (NativeResult × Core) × Log
run none = ((record { ok = false; code = pos 0; message = []; payload = [] }, created), [])
run (some o) = o

abbrev entered : (NativeResult × Core) × Log
entered = run (connect id created willing [])

connect_returns : connect id created willing [] ≡ some ((entered.0.0, entered.0.1), entered.1)
unfolding connect create_session codes equal decimal lookup insert ◌>>=◌ ask on_pointer pure
    test_again loop invalid_profile_result json_string json_int ensure_handshake capture_host_key
    observe finish_handshake after_handshake host_key_data key_type_of connect_tcp deadline_after
    retry wait_socket authenticate constant_time_equal base64 escape_json code_point unescape
    append_utf8
connect_returns = refl

-- The password has been sent, once.
password_sent : sent entered.1 ≡ Call.userauth_password 3 (codes "u") (codes "p") ∷ []
unfolding sent connect create_session codes equal decimal lookup insert ◌>>=◌ ask on_pointer pure
    test_again loop invalid_profile_result json_string json_int ensure_handshake capture_host_key
    observe finish_handshake after_handshake host_key_data key_type_of connect_tcp deadline_after
    retry wait_socket authenticate constant_time_equal base64 escape_json code_point unescape
    append_utf8
password_sent = refl

-- The session that it leaves.
abbrev session : SessionState
session = record {
  profile = record {
    host = codes "h";
    port = pos 22;
    username = codes "u";
    auth_type = codes "password";
    password = codes "p";
    private_key_path = [];
    private_key_passphrase = [];
    terminal_type = codes "xterm-256color";
    expected_host_key = codes "SHA256:BQ";
    keep_alive_seconds = pos 60;
    timeout_milliseconds = pos 15000;
  };
  socket_fd = some 3;
  session = some 3;
  sftp = none;
  handshake_complete = true;
  host_key_confirmed = true;
  authenticated = true;
  disconnecting = false;
  observed_host_key = codes "SHA256:BQ";
  observed_host_key_algorithm = codes "unknown";
}

session_entered : find_authenticated_session entered.0.1 id ≡ some session
unfolding find_authenticated_session connect create_session codes equal decimal lookup insert ◌>>=◌
    ask on_pointer pure test_again loop invalid_profile_result json_string json_int ensure_handshake
    capture_host_key observe finish_handshake after_handshake host_key_data key_type_of connect_tcp
    deadline_after retry wait_socket authenticate constant_time_equal base64 escape_json code_point
    unescape append_utf8
session_entered = refl

at_start : Reach willing (pos 0) created []
at_start = next start (creates profile_text refl refl)

at_end : Reach willing (pos 0) entered.0.1 entered.1
at_end = next at_start (connects id connect_returns)

find_authenticated_session-trusted_example :
    (session.handshake_complete ≡ true)
    × (session.host_key_confirmed ≡ true)
    × (session.profile.expected_host_key ≡ session.observed_host_key)
    × (session.observed_host_key ≢ [])
find_authenticated_session-trusted_example =
    find_authenticated_session-trusted id at_end session_entered

Reach-SafeSends_example : SafeSends entered.0.1 [] entered.1
Reach-SafeSends_example = Reach-SafeSends at_start (connects id connect_returns)

connect-ConnectSafe_example : ConnectSafe id [] entered.0 entered.1
connect-ConnectSafe_example =
    connect-ConnectSafe willing id created [] (Reach-AllTrusted at_start) connect_returns
