-- ===== src/Ssh/Forward/Adding.antt =====
-- `AddLocalForward` and `AddDynamicForward` of entry/src/main/cpp/native_ssh_libssh2.cpp.
pub mod Listeners
use tabssh_harmonyos.Prelude.{
  ℕ, Bool, true, false, not, ◌||◌, [], Option, none, some, Bytes, codes, is_empty, if◌then◌else◌,
}
use tabssh_harmonyos.Prelude.Int.{ℤ, pos, negsuc, pos_part, eqb_ℤ}
use tabssh_harmonyos.Prelude.Map.{Map, insert}
use tabssh_harmonyos.Ssh.Calls.{Call, Reply, Io, pure, ◌>>=◌, ◌>>◌, ask, look, on_pointer}
use tabssh_harmonyos.Ssh.Forward.Socks.{is_valid_forward_port}
use tabssh_harmonyos.Ssh.Forward.Table.{
  ForwardKind, local_forward, dynamic_forward, ForwardState, create_loopback_listener,
}
use tabssh_harmonyos.Ssh.State.{SessionState, Core, next_id, find_authenticated_session}

unfoldable pub is_valid_port : ℤ → Bool
is_valid_port (pos n) = is_valid_forward_port n
is_valid_port (negsuc n) = false

-- The first passage under `g_mutex`: the id, if the session is authenticated.
unfoldable pub name_forward :
    Bytes → ForwardState → Core → Option SessionState → Option ForwardState × Core
name_forward prefix state core none = (none, core)
name_forward prefix state core (some session) =
    let named = next_id prefix core in (some (record state { id = named.0 }), named.1)

unfoldable pub begin_local : Bytes → ℤ → Bytes → ℤ → Core → Option ForwardState × Core
unfolding is_valid_port name_forward
begin_local session_id local_port remote_host remote_port core =
    if (not (is_valid_port local_port) || not (is_valid_port remote_port)) || is_empty remote_host
    then (none, core)
    else name_forward (codes "forward-local")
        (record {
          id = [];
          session_id = session_id;
          kind = local_forward;
          target_host = remote_host;
          bind_port = pos_part local_port;
          target_port = pos_part remote_port;
          listen_fd = none;
          remote_listener = none;
          stopped = false;
        })
        core (find_authenticated_session core session_id)

unfoldable pub begin_dynamic : Bytes → ℤ → Core → Option ForwardState × Core
unfolding is_valid_port name_forward
begin_dynamic session_id local_port core =
    if not (is_valid_port local_port)
    then (none, core)
    else name_forward (codes "forward-dynamic")
        (record {
          id = [];
          session_id = session_id;
          kind = dynamic_forward;
          target_host = [];
          bind_port = pos_part local_port;
          target_port = 0;
          listen_fd = none;
          remote_listener = none;
          stopped = false;
        })
        core (find_authenticated_session core session_id)

-- The second passage: the session is asked for again, and the thread is started.
unfoldable pub register_forward :
    ForwardState → ℕ → Map ForwardState → Option SessionState → Io (Bytes × Map ForwardState)
register_forward state socket forwards none = ask (Call.close_fd socket) >> pure ([], forwards)
register_forward state socket forwards (some session) = do
  started ← ask (Call.start_thread state.id)
  if not (eqb_ℤ started.value (pos 0))
      then (ask (Call.close_fd socket) >> pure ([], forwards))
      else pure (state.id, insert state.id (record state { listen_fd = some socket }) forwards)

unfoldable pub listen_forward : ForwardState → Map ForwardState → Io (Bytes × Map ForwardState)
unfolding register_forward
listen_forward state forwards = do
  opened ← create_loopback_listener state.bind_port
  on_pointer opened (pure ([], forwards)) λ socket. look >>= λ core.
      register_forward state socket forwards (find_authenticated_session core state.session_id)

-- What both functions do after the first passage.
unfoldable pub finish_adding :
    Option ForwardState → Map ForwardState → Io (Bytes × Map ForwardState)
unfolding listen_forward
finish_adding none forwards = pure ([], forwards)
finish_adding (some state) forwards = listen_forward state forwards
