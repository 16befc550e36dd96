-- ===== src/Ssh/Waits/Authentication.antt =====
-- `Authenticate` of entry/src/main/cpp/native_ssh_libssh2.cpp ends.
use tabssh_harmonyos.Prelude.{ℕ, ◌+◌, ◌*◌, ◌<◌, ◌≡◌, refl, not, Option, none, some, Bytes, arith}
use tabssh_harmonyos.Prelude.Int.{pos, pos_part, eqb_ℤ}
use tabssh_harmonyos.Ssh.Authenticate.{after_userauth, send_credentials, authenticate}
use tabssh_harmonyos.Ssh.Calls.{Call, Reply, Env, Log, ask, loop, pure, ◌>>=◌}
use tabssh_harmonyos.Ssh.Network.{deadline_after, wait_socket, retry, session_error}
use tabssh_harmonyos.Ssh.State.{SessionState}
use tabssh_harmonyos.Ssh.Waits.{
  Passes, Uninterrupted, Ends, Ends-bind, Ends-if, Ends-pure, Returns, Ends-Returns,
}
use tabssh_harmonyos.Ssh.Waits.Deadline.{retry_rounds-Ends}

-- A statement that always holds of a result.
abbrev Done : {A : Type 0} → A → Log → Type 0
Done a log = Unit

ask-Done : (c : Call) (env : Env) (log : Log) → Ends Done (ask c env log)
unfolding ask
ask-Done c env log = tt

session_error-Done :
    (session : ℕ) (message : Bytes) (env : Env) (log : Log)
    → Ends Done (session_error session message env log)
unfolding session_error
session_error-Done session message env log =
    Ends-bind Done Done (ask (Call.last_error session)) _ env log (ask-Done _ env log)
      λ r l _. Ends-pure Done _ env l tt

after_userauth-Done :
    (state : SessionState) (o : Option Reply) (env : Env) (log : Log)
    → Ends Done (after_userauth state o env log)
unfolding after_userauth
after_userauth-Done state none env log = Ends-pure Done _ env log tt
after_userauth-Done state (some r) env log =
    Ends-if Done (not (eqb_ℤ r.value (pos 0))) _ _ env log
      (λ _.
        Ends-bind Done Done _ _ env log (session_error-Done _ _ env log)
          (λ m l _. Ends-pure Done _ env l tt))
      (λ _.
        Ends-bind Done Done _ _ env log (ask-Done _ env log) (λ r l _. Ends-pure Done _ env l tt))

-- The deadline that is set when the log is `log`.
abbrev pub deadline_at : Env → Log → SessionState → ℕ
deadline_at env log state =
    (env.answer log Call.clock_now).number + pos_part state.profile.timeout_milliseconds * 1000000

deadline_set :
    (env : Env) (state : SessionState) (log : Log)
    → Ends
        (λ d _. d ≡ deadline_at env log state)
        (deadline_after (pos_part state.profile.timeout_milliseconds) env log)
unfolding deadline_after ask pure ◌>>=◌
deadline_set env state log = refl

retry-Done :
    (env : Env) (call : Call) (session fd deadline readings : ℕ) (log : Log)
    → Uninterrupted env
    → Passes env deadline readings
    → readings < env.fuel
    → Ends Done (retry call (wait_socket session fd deadline) env log)
unfolding retry loop
retry-Done env call session fd deadline readings log calm passes enough =
    retry_rounds-Ends env calm (omega arith) call session fd deadline readings env.fuel log passes
      (omega arith) (omega arith)

send_credentials-Done :
    (env : Env) (state : SessionState) (log : Log) (readings : ℕ)
    → Uninterrupted env
    → Passes env (deadline_at env log state) readings
    → readings < env.fuel
    → Ends Done (send_credentials state env log)
unfolding send_credentials
send_credentials-Done env state log readings calm passes enough =
    Ends-bind (λ d _. d ≡ deadline_at env log state) Done (deadline_after _) _ env log
      (deadline_set env state log)
      λ d l e.
        Ends-bind Done Done _ _ env l (retry-Done env _ _ _ d readings l calm (rw e passes) enough)
          (λ o l' _. after_userauth-Done state o env l')

-- However often libssh2 answers LIBSSH2_ERROR_EAGAIN, `Authenticate` returns, if no signal interrupts
-- its polls and the loops are given more rounds than the clock is read before it passes the deadline.
pub authenticate-Returns :
    (env : Env) (state : SessionState) (log : Log) (readings : ℕ)
    → Uninterrupted env
    → Passes env (deadline_at env log state) readings
    → readings < env.fuel
    → Returns (authenticate state) env log
unfolding authenticate
authenticate-Returns env state log readings calm passes enough =
    Ends-Returns Done (authenticate state) env log (
      Ends-if Done state.authenticated _ _ env log (λ _. Ends-pure Done _ env log tt)
        (λ _. send_credentials-Done env state log readings calm passes enough))
