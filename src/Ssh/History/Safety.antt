-- ===== src/Ssh/History/Safety.antt =====
-- In every history of entry/src/main/cpp/native_ssh_libssh2.cpp, whatever the network answers, an
-- authenticated session has the host key that its profile expects.
use mathlib.Core.Path.{subst}
use tabssh_harmonyos.Prelude.{
  ◌≡◌, ◌≢◌, sym, ◌∙◌, ◌⊎◌, inl, inr, true, [], Option, none, some, Bytes, arith,
}
use tabssh_harmonyos.Prelude.Int.{ℤ}
use tabssh_harmonyos.Prelude.Map.{lookup}
use tabssh_harmonyos.Ssh.Calls.{Env, Log, Io}
use tabssh_harmonyos.Ssh.Disconnect.{cleared, finish_found, finish_disconnect}
use tabssh_harmonyos.Ssh.Effects.{sent, Quiet, Quiet-pure, Quiet-after, Quiet-bind}
use tabssh_harmonyos.Ssh.History.{
  Step, creates, confirms, connects, opens_shell, writes, reads, resizes, closes_channel,
  begins_disconnect, finishes_disconnect, transfers, Reach, start, next,
}
use tabssh_harmonyos.Ssh.State.{SessionState, Core, usable, find_authenticated_session}
use tabssh_harmonyos.Ssh.Trust.Credentials.{Sends}
use tabssh_harmonyos.Ssh.Trust.Globals.{
  AllTrusted, create_session-AllTrusted, confirm_host_key-AllTrusted, begin_disconnect-AllTrusted,
  without_session-AllTrusted, After-eq, connect-ConnectSafe,
}
use tabssh_harmonyos.Ssh.Trust.KeyCheck.{IsTrusted, close_network-IsTrusted}
use tabssh_harmonyos.Ssh.Trust.Operations.{
  open_shell-Quiet, resize-Quiet, close_channel-Quiet, close_channels-Silent,
}
use tabssh_harmonyos.Ssh.Trust.SftpSessions.{operate-AllTrusted}
use tabssh_harmonyos.Ssh.Trust.Streams.{write-Silent, read-Silent}

-- Credentials since a log, if any, are those of one session of the globals, whose key is confirmed
-- and is the one that its profile expects.
abbrev pub SafeSends : Core → Log → Log → Type 0
SafeSends core log log' =
    (sent log' ≡ sent log)
    ⊎ ((id : Bytes) × (s : SessionState) × (lookup id core.sessions ≡ some s) × Sends s log log')

finish_found-Quiet :
    (id : Bytes) (core : Core) (o : Option SessionState)
    → AllTrusted core
    → Quiet (λ r. AllTrusted r.1) (finish_found id core o)
unfolding finish_found
finish_found-Quiet id core none all = Quiet-pure _ all
finish_found-Quiet id core (some s) all =
    Quiet-bind IsTrusted _ _ _
      (Quiet-after _ _ (close_channels-Silent id s core.channels) (λ _. close_network-IsTrusted s))
      (λ state _. Quiet-pure _ (without_session-AllTrusted id (cleared state) core all))

finish_disconnect-Quiet :
    (id : Bytes) (core : Core)
    → AllTrusted core
    → Quiet (λ r. AllTrusted r.1) (finish_disconnect id core)
unfolding finish_disconnect
finish_disconnect-Quiet id core = finish_found-Quiet id core (lookup id core.sessions)

-- What a quiet action that has returned has done.
Quiet-run :
    {A : Type 0} {P : A → Type 0} (m : Io A) (env : Env) (log : Log) {a : A} {log' : Log}
    → Quiet P m
    → m env log ≡ some (a, log')
    → P a × (sent log' ≡ sent log)
Quiet-run {P = P} m env log q e =
    After-eq (λ a log'. P a × (sent log' ≡ sent log)) _ _ _ (q.at env log) e

kept : (core core' : Core) → AllTrusted core → core'.sessions ≡ core.sessions → AllTrusted core'
kept core core' all e id s h = all id s (sym (λ i. lookup id (e i)) ∙ h)

-- Every step keeps all sessions trusted, and sends credentials only for a confirmed session.
pub Step-SafeSends :
    {env : Env} {core core' : Core} {log log' : Log}
    → AllTrusted core
    → Step env core log core' log'
    → AllTrusted core' × SafeSends core' log log'
Step-SafeSends all (creates json e l) =
    (subst AllTrusted (sym e) (create_session-AllTrusted json _ all), inl (λ i. sent (l i)))
Step-SafeSends all (confirms id f e l) =
    (subst AllTrusted (sym e) (confirm_host_key-AllTrusted id f _ all), inl (λ i. sent (l i)))
Step-SafeSends {env} {core} {core'} {log} {log'} all (connects id e) =
    let safe = connect-ConnectSafe env id core log all e in
    (safe.all_trusted, of_connect core' log' safe.sends)
  where
    of_connect :
        (core'' : Core) (l : Log)
        → (sent l ≡ sent log)
          ⊎ ((s : SessionState) × (lookup id core''.sessions ≡ some s) × Sends s log l)
        → SafeSends core'' log l
    of_connect core'' l (inl q) = inl q
    of_connect core'' l (inr (s, h, q)) = inr (id, s, h, q)
Step-SafeSends {env} {core} {core'} {log} all (opens_shell id e) =
    let q = Quiet-run _ env log (open_shell-Quiet id core) e in (kept core core' all q.0, inl q.1)
Step-SafeSends {env} {core} {log = log} all (writes id text e c) =
    let q = Quiet-run _ env log (write-Silent id text core) e in
    (subst AllTrusted (sym c) all, inl q.1)
Step-SafeSends {env} {core} {log = log} all (reads id e c) =
    let q = Quiet-run _ env log (read-Silent id core) e in (subst AllTrusted (sym c) all, inl q.1)
Step-SafeSends {env} {core} {core'} {log} all (resizes id cols rows e) =
    let q = Quiet-run _ env log (resize-Quiet id cols rows core) e in
    (kept core core' all q.0, inl q.1)
Step-SafeSends {env} {core} {core'} {log} all (closes_channel id e) =
    let q = Quiet-run _ env log (close_channel-Quiet id core) e in
    (kept core core' all q.0, inl q.1)
Step-SafeSends all (begins_disconnect id e l) =
    (subst AllTrusted (sym e) (begin_disconnect-AllTrusted id _ all), inl (λ i. sent (l i)))
Step-SafeSends {env} {core} {log = log} all (finishes_disconnect id e) =
    let q = Quiet-run _ env log (finish_disconnect-Quiet id core all) e in (q.0, inl q.1)
Step-SafeSends {env} {core} {log = log} all (transfers id operation e) =
    let q = Quiet-run _ env log (operate-AllTrusted id operation core all) e in (q.0, inl q.1)

nothing : (id : Bytes) (s : SessionState) → lookup id [] ≡ some s → ⊥
unfolding lookup
nothing id s h = cc

pub Reach-AllTrusted :
    {env : Env} {status : ℤ} {core : Core} {log : Log} → Reach env status core log → AllTrusted core
Reach-AllTrusted start = λ id s h. absurd (nothing id s h)
Reach-AllTrusted (next r st) = (Step-SafeSends (Reach-AllTrusted r) st).0

usable_entered :
    (o : Option SessionState) (s : SessionState)
    → usable o ≡ some s
    → (o ≡ some s) × (s.authenticated ≡ true)
unfolding usable
usable_entered none s h = cc
usable_entered (some t) s h = ground arith

-- In every reachable state a session that `FindAuthenticatedSession` hands out has completed its
-- handshake and has a confirmed, non-empty host key, the one that its profile expects.
pub find_authenticated_session-trusted :
    {env : Env} {status : ℤ} {core : Core} {log : Log} {s : SessionState} (id : Bytes)
    → Reach env status core log
    → find_authenticated_session core id ≡ some s
    → (s.handshake_complete ≡ true)
      × (s.host_key_confirmed ≡ true)
      × (s.profile.expected_host_key ≡ s.observed_host_key)
      × (s.observed_host_key ≢ [])
unfolding find_authenticated_session
find_authenticated_session-trusted {core = core} {s = s} id r h =
    let e = usable_entered (lookup id core.sessions) s h in
    let t = Reach-AllTrusted r id s e.0 in
    let c = t.key_first e.1 in (t.handshaken c, c, t.key_expected c, t.key_known c)

-- In every reachable state, whatever step follows, credentials are sent only for one session of the
-- globals, whose handshake is complete and whose host key is confirmed, not empty, and the one that its
-- profile expects.
pub Reach-SafeSends :
    {env : Env} {status : ℤ} {core core' : Core} {log log' : Log}
    → Reach env status core log
    → Step env core log core' log'
    → SafeSends core' log log'
Reach-SafeSends r st = (Step-SafeSends (Reach-AllTrusted r) st).1
