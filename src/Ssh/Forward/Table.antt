-- ===== src/Ssh/Forward/Table.antt =====
-- The table of forwards of entry/src/main/cpp/native_ssh_libssh2.cpp: `ForwardState`,
-- `CreateLoopbackListener`, `CancelRemoteListener`, `StopForwardState`, `StopForwardsForSession`
-- and `RemoveForward`.
pub mod Ended
pub mod Stopped
use tabssh_harmonyos.Prelude.{
  ℕ, Bool, true, false, not, ◌||◌, List, [], ◌∷◌, Option, none, some, Bytes, codes, equal, is_empty,
  if◌then◌else◌,
}
use tabssh_harmonyos.Prelude.Int.{ℤ, pos, pos_part, eqb_ℤ}
use tabssh_harmonyos.Prelude.Map.{Map, lookup, insert, erase, erase_if}
use tabssh_harmonyos.Json.Result.{NativeResult}
use tabssh_harmonyos.Profile.{success, failure}
use tabssh_harmonyos.Ssh.Calls.{Call, Reply, Io, pure, ◌>>=◌, ◌>>◌, ask, look, on_pointer}
use tabssh_harmonyos.Ssh.Channel.{wait_for_channel}
use tabssh_harmonyos.Ssh.Forward.Socks.{is_valid_forward_port}
use tabssh_harmonyos.Ssh.Network.{deadline_after, retry}
use tabssh_harmonyos.Ssh.State.{SessionState, Core, next_id, find_authenticated_session}

pub data ForwardKind : Type 0 where
  local_forward remote_forward dynamic_forward : ForwardKind

-- The flag `stopping` and the count of connections, which other threads read and change, are parts of
-- Env and of the calls.
pub record ForwardState : Type 0 where
  pub id : Bytes
  pub session_id : Bytes
  pub kind : ForwardKind
  pub target_host : Bytes
  pub bind_port : ℕ
  pub target_port : ℕ
  pub listen_fd : Option ℕ
  pub remote_listener : Option ℕ
  pub stopped : Bool

-- `CreateLoopbackListener`; a socket that cannot be used is closed. `SetNonBlocking` is one call, which
-- gives 0 if it succeeds; the options whose results are ignored are left out.
abbrev pub give_up_listener : ℕ → Io (Option ℕ)
give_up_listener socket = ask (Call.close_fd socket) >> pure none

unfoldable pub prepare_listener : ℕ → ℕ → Io (Option ℕ)
prepare_listener port socket = do
  bound ← ask (Call.bind_loopback socket port)
  if not (eqb_ℤ bound.value (pos 0)) then give_up_listener socket else do
    listening ← ask (Call.listen_on socket 16)
    if not (eqb_ℤ listening.value (pos 0)) then give_up_listener socket else do
      made ← ask (Call.set_nonblocking socket)
      if not (eqb_ℤ made.value (pos 0)) then give_up_listener socket else pure (some socket)

unfoldable pub create_loopback_listener : ℕ → Io (Option ℕ)
unfolding prepare_listener
create_loopback_listener port = do
  opened ← ask Call.listener_socket
  on_pointer opened.pointer (pure none) (prepare_listener port)

-- The cancellation on the session of a forward, if it has one.
unfoldable pub cancel_on : ℕ → Option SessionState → Io (Unit {0})
cancel_on listener none = pure tt
cancel_on listener (some session) = on_pointer session.session (pure tt) λ _.
    deadline_after 2000 >>= λ deadline.
    retry (Call.forward_cancel listener) (wait_for_channel session deadline) >> pure tt

unfoldable pub cancel_remote_listener : ForwardState → Io ForwardState
unfolding cancel_on
cancel_remote_listener state = on_pointer state.remote_listener (pure state) λ listener.
    look >>= λ core.
    cancel_on listener (lookup state.session_id core.sessions)
    >> pure (record state { remote_listener = none })

unfoldable pub close_listener : ForwardState → Io ForwardState
close_listener state =
    on_pointer state.listen_fd (pure state)
      λ socket. ask (Call.close_fd socket) >> pure (record state { listen_fd = none })

-- A forward that is not stopped has a thread that can be joined.
unfoldable pub stop_forward_state : ForwardState → Io ForwardState
unfolding close_listener cancel_remote_listener
stop_forward_state state = if state.stopped then pure state else do
  ask (Call.set_stopping state.id)
  ask (Call.join_thread state.id)
  closed ← close_listener state
  cancelled ← cancel_remote_listener closed
  ask (Call.await_connections state.id)
  pure (record cancelled { stopped = true })

unfoldable pub is_of : Bytes → Bytes → ForwardState → Bool
is_of session_id key state = equal state.session_id session_id

-- The forwards that are taken out of the table, in its order.
unfoldable pub forwards_of : Bytes → Map ForwardState → List ForwardState
unfolding is_of
forwards_of session_id [] = []
forwards_of session_id ((key, state) ∷ forwards) =
    let rest = forwards_of session_id forwards in
    if is_of session_id key state then state ∷ rest else rest

unfoldable pub stop_all : List ForwardState → Io (List ForwardState)
unfolding stop_forward_state
stop_all [] = pure []
stop_all (state ∷ states) =
    let rest = stop_all states in
    stop_forward_state state >>= λ stopped. rest >>= λ others. pure (stopped ∷ others)

-- The forwards that have been stopped, and the table as it is left, under its mutex, before that.
unfoldable pub stop_forwards_for_session :
    Bytes → Map ForwardState → Io (List ForwardState × Map ForwardState)
unfolding stop_all forwards_of
stop_forwards_for_session session_id forwards =
    stop_all (forwards_of session_id forwards) >>= λ states.
    pure (states, erase_if (is_of session_id) forwards)

-- The second passage under the mutex of the table, if the forward is still the same.
unfoldable pub erase_same :
    Bytes → ForwardState → Option ForwardState → Map ForwardState → Map ForwardState
erase_same forward_id state none forwards = forwards
erase_same forward_id state (some other) forwards =
    if equal other.id state.id then erase forward_id forwards else forwards

-- With the table at the second passage, which other threads may have changed.
unfoldable pub remove_found :
    Bytes → Map ForwardState → Option ForwardState → Io (NativeResult × Map ForwardState)
unfolding stop_forward_state erase_same
remove_found forward_id later none = pure (failure (pos 404) (codes "forward not found") [], later)
remove_found forward_id later (some state) =
    stop_forward_state state
    >> pure (
      success (codes "forward removed and resources released") [],
      erase_same forward_id state (lookup forward_id later) later,
    )

unfoldable pub remove_forward :
    Bytes → Map ForwardState → Map ForwardState → Io (NativeResult × Map ForwardState)
unfolding remove_found
remove_forward forward_id forwards later =
    remove_found forward_id later (lookup forward_id forwards)
