-- ===== src/Ssh/Disconnect.antt =====
-- `Disconnect` of entry/src/main/cpp/native_ssh_libssh2.cpp: two steps on the globals, each under
-- `g_mutex`, between which `StopForwardsForSession` runs without it.
pub mod Closing
pub mod Released
use tabssh_harmonyos.Prelude.{
  ℕ, Bool, true, [], ◌∷◌, List, Option, none, some, Bytes, codes, equal, if◌then◌else◌,
}
use tabssh_harmonyos.Prelude.Map.{Map, lookup, insert, erase, erase_if}
use tabssh_harmonyos.Json.Result.{NativeResult}
use tabssh_harmonyos.Profile.{success, clear_credentials}
use tabssh_harmonyos.Ssh.Calls.{Io, pure, ◌>>=◌, ◌>>◌}
use tabssh_harmonyos.Ssh.Channel.{close_channel_internal}
use tabssh_harmonyos.Ssh.Forward.Table.{ForwardState, stop_forwards_for_session}
use tabssh_harmonyos.Ssh.Handshake.{close_network}
use tabssh_harmonyos.Ssh.Session.{not_found}
use tabssh_harmonyos.Ssh.State.{SessionState, ChannelState, Core}

-- The first step; `none` lets the second follow.
unfoldable pub begin_found : Bytes → Core → Option SessionState → Option NativeResult × Core
begin_found session_id core none = (some not_found, core)
begin_found session_id core (some session) = (
  none,
  record core {
    sessions = insert session_id (record session { disconnecting = true }) core.sessions;
  },
)

unfoldable pub begin_disconnect : Bytes → Core → Option NativeResult × Core
unfolding begin_found
begin_disconnect session_id core = begin_found session_id core (lookup session_id core.sessions)

abbrev pub belongs_to : Bytes → Bytes → ChannelState → Bool
belongs_to session_id key channel = equal channel.session_id session_id

-- The loop over the channels: those of the session are closed, in the map's order.
unfoldable pub close_channels : Bytes → SessionState → Map ChannelState → Io (Unit {0})
close_channels session_id session [] = pure tt
close_channels session_id session ((key, channel) ∷ channels) =
    let rest = close_channels session_id session channels in
    if belongs_to session_id key channel
    then (close_channel_internal session channel.channel >> rest)
    else rest

-- The globals behind the second step.
unfoldable pub without_session : Bytes → Core → Core
without_session session_id core = record core {
  sessions = erase session_id core.sessions;
  channels = erase_if (belongs_to session_id) core.channels;
}

-- The session with the secrets of its profile cleared.
unfoldable pub cleared : SessionState → SessionState
cleared session = record session { profile = clear_credentials session.profile }

abbrev pub with_session : Bytes → SessionState → Core → Core
with_session session_id session core = record core {
  sessions = insert session_id session core.sessions;
}

-- The second step.
unfoldable pub finish_found : Bytes → Core → Option SessionState → Io (NativeResult × Core)
unfolding close_channels without_session cleared
finish_found session_id core none = pure (not_found, core)
finish_found session_id core (some session) =
    close_channels session_id session core.channels >> close_network session >>= λ state. pure (
      success (codes "session disconnected and resources released") [],
      without_session session_id (with_session session_id (cleared state) core),
    )

unfoldable pub finish_disconnect : Bytes → Core → Io (NativeResult × Core)
unfolding finish_found
finish_disconnect session_id core = finish_found session_id core (lookup session_id core.sessions)

-- What a `Disconnect` gives and leaves: its result, the globals behind the first step and behind the
-- second, and the table of forwards.
pub record Left : Type 0 where
  pub result : NativeResult
  pub marked : Core
  pub core : Core
  pub forwards : Map ForwardState

abbrev pub finish_on : Bytes → Core → Map ForwardState → Core → Io Left
finish_on session_id marked forwards later =
    finish_disconnect session_id later >>= λ (result, core).
    pure (record { result = result; marked = marked; core = core; forwards = forwards })

unfoldable pub disconnect_on :
    Bytes → Map ForwardState → Core → Option NativeResult × Core → Io Left
unfolding stop_forwards_for_session finish_disconnect
disconnect_on session_id forwards later (some result, core) =
    pure (record { result = result; marked = core; core = core; forwards = forwards })
disconnect_on session_id forwards later (none, marked) =
    stop_forwards_for_session session_id forwards >>= λ (states, forwards').
    finish_on session_id marked forwards' later

-- Both steps, and what lies between. `later` are the globals at the second step, which other threads may
-- have changed since the first.
unfoldable pub disconnect : Bytes → Core → Map ForwardState → Core → Io Left
unfolding begin_disconnect disconnect_on
disconnect session_id core forwards later =
    disconnect_on session_id forwards later (begin_disconnect session_id core)
