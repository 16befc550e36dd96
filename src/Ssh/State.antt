-- ===== src/Ssh/State.antt =====
-- The state of entry/src/main/cpp/native_ssh_libssh2.cpp: `SessionState`, `ChannelState` and the globals.
use tabssh_harmonyos.Prelude.{
  ℕ, ◌+◌, ◌%◌, ◌^◌, Bool, false, not, ◌||◌, [], ◌∷◌, ◌++◌, Option, none, some, Bytes, decimal,
  if◌then◌else◌,
}
use tabssh_harmonyos.Prelude.Int.{ℤ}
use tabssh_harmonyos.Prelude.Map.{Map, lookup}
use tabssh_harmonyos.Profile.{ProfileConfig}

-- A descriptor of -1 and a null pointer are `none`.
pub record SessionState : Type 0 where
  pub profile : ProfileConfig
  pub socket_fd : Option ℕ
  pub session : Option ℕ
  pub sftp : Option ℕ
  pub handshake_complete : Bool
  pub host_key_confirmed : Bool
  pub authenticated : Bool
  pub disconnecting : Bool
  pub observed_host_key : Bytes
  pub observed_host_key_algorithm : Bytes

-- A new session.
abbrev pub new_session : ProfileConfig → SessionState
new_session profile = record {
  profile = profile;
  socket_fd = none;
  session = none;
  sftp = none;
  handshake_complete = false;
  host_key_confirmed = false;
  authenticated = false;
  disconnecting = false;
  observed_host_key = [];
  observed_host_key_algorithm = [];
}

-- A pointer or descriptor handed to a call; 0 stands for null and for -1.
abbrev pub raw : Option ℕ → ℕ
raw none = 0
raw (some p) = p

pub record ChannelState : Type 0 where
  pub session_id : Bytes
  pub channel : ℕ
  pub cols : ℤ
  pub rows : ℤ

-- `g_sessions`, `g_channels`, `g_counter`, and the status of `libssh2_init`.
pub record Core : Type 0 where
  pub sessions : Map SessionState
  pub channels : Map ChannelState
  pub counter : ℕ
  pub runtime_status : ℤ

-- `NextId`: the prefix, a dash and the counter, which goes up.
unfoldable pub next_id : Bytes → Core → Bytes × Core
next_id prefix core =
    (prefix ++ b'-' ∷ decimal core.counter, record core { counter = (core.counter + 1) % 2 ^ 64 })

-- `FindAuthenticatedSession`.
unfoldable pub usable : Option SessionState → Option SessionState
usable none = none
usable (some session) =
    if not session.authenticated || session.disconnecting then none else some session

unfoldable pub find_authenticated_session : Core → Bytes → Option SessionState
unfolding usable
find_authenticated_session core session_id = usable (lookup session_id core.sessions)
