-- ===== src/Ssh/Disconnect/Released.antt =====
-- What `Disconnect` of entry/src/main/cpp/native_ssh_libssh2.cpp closes and leaves.
use tabssh_harmonyos.Prelude.{◌≡◌, ◌≢◌, true, List, Option, none, some, Bytes}
use tabssh_harmonyos.Prelude.Map.{Map, lookup}
use tabssh_harmonyos.Json.Result.{NativeResult}
use tabssh_harmonyos.Ssh.Calls.{Env, Log}
use tabssh_harmonyos.Ssh.Disconnect.{Left}
use tabssh_harmonyos.Ssh.Disconnect.Closing.{channels_tasks, network_tasks}
use tabssh_harmonyos.Ssh.Effects.Tasks.{Performs}
use tabssh_harmonyos.Ssh.Forward.Table.{ForwardState}
use tabssh_harmonyos.Ssh.Forward.Table.Stopped.{StopsAll}
use tabssh_harmonyos.Ssh.Session.{not_found}
use tabssh_harmonyos.Ssh.State.{SessionState, ChannelState, Core, find_authenticated_session}

-- The session and its channels are gone, and nothing else is touched.
pub record Released (id : Bytes) (before after : Core) : Type 0 where
  pub no_session : lookup id after.sessions ≡ none
  pub no_channels :
      (key : Bytes) (c : ChannelState) → lookup key after.channels ≡ some c → c.session_id ≢ id
  pub other_sessions :
      (key : Bytes) → key ≢ id → lookup key after.sessions ≡ lookup key before.sessions
  pub other_channels :
      (key : Bytes) (c : ChannelState)
      → lookup key before.channels ≡ some c
      → c.session_id ≢ id
      → lookup key after.channels ≡ some c
  pub same_counter : after.counter ≡ before.counter

-- The second step where the session is found: its channels and its network have been closed, in this
-- order, and then it is out of the globals.
pub record Finishes (env : Env) (id : Bytes) (core : Core) (s : SessionState) (before : Log)
    (o : NativeResult × Core) (after : Log) : Type 0 where
  pub ok : o.0.ok ≡ true
  pub channels_closed : Log
  pub closes_channels : Performs env (channels_tasks id s core.channels) 0 before channels_closed
  pub closes_network : Performs env (network_tasks s) 0 channels_closed after
  pub released : Released id core o.1

-- The second step; it finds no session where another thread has removed it since the first.
abbrev pub FinishesIf :
    Env → Bytes → Core → Option SessionState → Log → NativeResult × Core → Log → Type 0
FinishesIf env id core none before o after = (o ≡ (not_found, core)) × (after ≡ before)
FinishesIf env id core (some s) before o after = Finishes env id core s before o after

-- The first step: the session is marked, so that no other operation uses it, and nothing else changes.
pub record Marks (id : Bytes) (s : SessionState) (before after : Core) : Type 0 where
  pub disconnecting : lookup id after.sessions ≡ some (record s { disconnecting = true })
  pub unusable : find_authenticated_session after id ≡ none
  pub others : (key : Bytes) → key ≢ id → lookup key after.sessions ≡ lookup key before.sessions
  pub same_channels : after.channels ≡ before.channels

-- What a `Disconnect` does, on what the globals have under its id.
abbrev pub Disconnects :
    Env → Bytes → Core → Map ForwardState → Core → Option SessionState → Log → Left → Log → Type 0
Disconnects env id core forwards later none log left log' =
    (left ≡ record { result = not_found; marked = core; core = core; forwards = forwards })
    × (log' ≡ log)
Disconnects env id core forwards later (some s) log left log' =
    Marks id s core left.marked
    × ((states : List ForwardState) × (mid : Log) × StopsAll env id forwards log states
          left.forwards mid
        × FinishesIf env id later (lookup id later.sessions) mid (left.result, left.core) log')
