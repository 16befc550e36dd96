-- ===== src/Ssh/Forward/Table/Ended.antt =====
-- How `StopForwardState` of entry/src/main/cpp/native_ssh_libssh2.cpp ends one forward: what it asks of the
-- threads, of the sockets and of libssh2, in order.
use mathlib.Core.Path.{subst}
use tabssh_harmonyos.Prelude.{
  ◌+◌, ◌*◌, ◌≡◌, refl, sym, ap, ◌∙◌, Bool, true, false, ℕ, List, [], ◌∷◌, Option, none, some, Bytes,
  if◌then◌else◌,
}
use tabssh_harmonyos.Prelude.Map.{lookup}
use tabssh_harmonyos.Ssh.Calls.{Call, Env, Log}
use tabssh_harmonyos.Ssh.Channel.{wait_for_channel}
use tabssh_harmonyos.Ssh.Effects.{After, After-bind, After-if, After-pure}
use tabssh_harmonyos.Ssh.Effects.Held.{wait_socket-Held}
use tabssh_harmonyos.Ssh.Effects.Runs.{After-ask, After-look, After-on_pointer}
use tabssh_harmonyos.Ssh.Effects.Settled.{deeds, deeds-IgnoresWaits}
use tabssh_harmonyos.Ssh.Effects.Tasks.{
  Task, once, start_clock, until_settled, Performs, After-deadline, After-retry,
}
use tabssh_harmonyos.Ssh.Forward.Table.{
  ForwardState, cancel_on, cancel_remote_listener, close_listener, stop_forward_state,
}
use tabssh_harmonyos.Ssh.State.{SessionState, Core}

abbrev pub shut_tasks : Option ℕ → List Task
shut_tasks none = []
shut_tasks (some fd) = once (Call.close_fd fd) ∷ []

abbrev pub cancel_tasks : ℕ → SessionState → Option ℕ → List Task
cancel_tasks listener session none = []
cancel_tasks listener session (some p) =
    start_clock 2000 ∷ until_settled (Call.forward_cancel listener) (wait_for_channel session) ∷ []

abbrev pub session_tasks : ℕ → Option SessionState → List Task
session_tasks listener none = []
session_tasks listener (some session) = cancel_tasks listener session session.session

-- The remote listener is cancelled for two seconds, on the session that is then in the globals.
abbrev pub remote_tasks : Option ℕ → Bytes → Core → List Task
remote_tasks none session_id core = []
remote_tasks (some listener) session_id core =
    session_tasks listener (lookup session_id core.sessions)

-- The thread has been told to stop and awaited, the listening socket closed, the remote listener
-- cancelled, and the connections awaited.
pub record Ends (env : Env) (s : ForwardState) (before after : Log) : Type 0 where
  pub joined : Log
  pub cancelled : Log
  pub stops :
      Performs env
        (once (Call.set_stopping s.id) ∷ once (Call.join_thread s.id) ∷ shut_tasks s.listen_fd)
        0
        before
        joined
  pub cancels :
      Performs env
        (remote_tasks s.remote_listener s.session_id (env.globals joined))
        0
        joined
        cancelled
  pub awaits : after ≡ Call.await_connections s.id ∷ cancelled

-- A forward that has been stopped earlier is left alone.
abbrev pub EndsIf : Bool → Env → ForwardState → Log → Log → Type 0
EndsIf true env s before after = after ≡ before
EndsIf false env s before after = Ends env s before after

abbrev pub shut : ForwardState → ForwardState
shut s = record s { listen_fd = none; remote_listener = none; stopped = true }

module _ (env : Env) (s : ForwardState) (log : Log) where
  close_listener-Performs :
      After
        (λ t l. (t ≡ record s { listen_fd = none }) × Performs env (shut_tasks s.listen_fd) 0 log l)
        (close_listener s env log)
  unfolding close_listener
  close_listener-Performs =
      let Q : ForwardState → Log → Type 0 = λ t l.
        (t ≡ record s { listen_fd = none }) × Performs env (shut_tasks s.listen_fd) 0 log l in
      After-on_pointer Q env log s.listen_fd _ _
        (λ h. After-pure Q s env log (
          ap (λ o. record s { listen_fd = o }) h,
          subst (λ o. Performs env (shut_tasks o) 0 log log) (sym h) refl,
        ))
        (λ fd h.
          let close = Call.close_fd fd in
          After-ask Q env log close _ (
            After-pure Q _ env (close ∷ log)
              (refl, subst (λ o. Performs env (shut_tasks o) 0 log (close ∷ log)) (sym h) refl)))

  cancel_on-Performs :
      (listener : ℕ) (o : Option SessionState)
      → After
          (λ _ l. Performs env (session_tasks listener o) 0 log l)
          (cancel_on listener o env log)
  unfolding cancel_on
  cancel_on-Performs listener none = After-pure _ tt env log refl
  cancel_on-Performs listener (some session) =
      let Q : Unit {0} → Log → Type 0 =
        λ _ l. Performs env (cancel_tasks listener session session.session) 0 log l in
      After-on_pointer Q env log session.session _ _
        (λ h.
          After-pure Q tt env log
            (subst (λ o. Performs env (cancel_tasks listener session o) 0 log log) (sym h) refl))
        (λ p h.
          let deadline = (env.answer log Call.clock_now).number + 2000 * 1000000 in
          After-deadline Q env log 2000 _ (
            After-retry Q env (Call.clock_now ∷ log) (Call.forward_cancel listener)
              (wait_for_channel session deadline) _ refl
              (wait_socket-Held deeds deeds-IgnoresWaits _ _ deadline)
              (λ o z settled. After-pure Q tt env z (
                subst (λ o'. Performs env (cancel_tasks listener session o') 0 log z) (sym h)
                  (o, z, settled, refl)))))

  cancel_remote_listener-Performs :
      After
        (λ t l.
          (t ≡ record s { remote_listener = none })
          × Performs env (remote_tasks s.remote_listener s.session_id (env.globals log)) 0 log l)
        (cancel_remote_listener s env log)
  unfolding cancel_remote_listener
  cancel_remote_listener-Performs =
      let tasks : Option ℕ → List Task = λ o. remote_tasks o s.session_id (env.globals log) in
      let Q : ForwardState → Log → Type 0 = λ t l.
        (t ≡ record s { remote_listener = none })
        × Performs env (tasks s.remote_listener) 0 log l in
      After-on_pointer Q env log s.remote_listener _ _
        (λ h. After-pure Q s env log (
          ap (λ o. record s { remote_listener = o }) h,
          subst (λ o. Performs env (tasks o) 0 log log) (sym h) refl,
        ))
        (λ listener h. After-look Q env log _ (
          After-bind _ Q _ _ env log
            (cancel_on-Performs listener (lookup s.session_id (env.globals log).sessions))
            (λ _ l p.
              After-pure Q _ env l (refl, subst (λ o. Performs env (tasks o) 0 log l) (sym h) p))))

module _ (env : Env) (s : ForwardState) where
  pub stop_forward_state-Ends :
      (log : Log)
      → After
          (λ t l. (t ≡ (if s.stopped then s else shut s)) × EndsIf s.stopped env s log l)
          (stop_forward_state s env log)
  unfolding stop_forward_state
  stop_forward_state-Ends log =
      let Q : ForwardState → Log → Type 0 =
        λ t l. (t ≡ (if s.stopped then s else shut s)) × EndsIf s.stopped env s log l in
      After-if Q s.stopped _ _ env log (λ h. After-pure Q s env log (from_true s.stopped h))
        (λ h.
          let stop = Call.set_stopping s.id in
          let join = Call.join_thread s.id in
          After-ask Q env log stop _ (
            After-ask Q env (stop ∷ log) join _ (
              After-bind _ Q _ _ env (join ∷ stop ∷ log)
                (close_listener-Performs env s (join ∷ stop ∷ log))
                (λ t l p.
                  After-bind _ Q _ _ env l (cancel_remote_listener-Performs env t l) (λ t' l' p'.
                    let await = Call.await_connections s.id in
                    After-ask Q env l' await _ (
                      After-pure Q _ env (await ∷ l') (
                        from_false s.stopped h
                          (ap {A = ForwardState} (λ q. record q { stopped = true })
                            (p'.0
                              ∙ ap {A = ForwardState} (λ q. record q { remote_listener = none })
                                  p.0))
                          (record {
                            joined = l;
                            cancelled = l';
                            stops = p.1;
                            cancels =
                                subst
                                  (λ q.
                                    Performs env
                                      (remote_tasks q.remote_listener q.session_id (env.globals l))
                                      0 l l')
                                  p.0 p'.1;
                            awaits = refl;
                          }))))))))
    where
      from_true : (b : Bool) → b ≡ true → (s ≡ (if b then s else shut s)) × EndsIf b env s log log
      from_true true h = (refl, refl)
      from_true false h = absurd (cc)

      from_false :
          (b : Bool) {t : ForwardState} {l : Log}
          → b ≡ false
          → t ≡ shut s
          → Ends env s log l
          → (t ≡ (if b then s else shut s)) × EndsIf b env s log l
      from_false false h e p = (e, p)
      from_false true h e p = absurd (cc)
