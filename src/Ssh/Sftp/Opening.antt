-- ===== src/Ssh/Sftp/Opening.antt =====
-- What `EnsureSftp` and `OpenSftpFile` of entry/src/main/cpp/native_ssh_libssh2.cpp do to the traffic.
use tabssh_harmonyos.Prelude.{
  arith, ℕ, ◌≡◌, refl, ap, ◌∙◌, Bool, true, false, not, ◌∷◌, Bytes, if◌then◌else◌,
}
use tabssh_harmonyos.Json.Result.{NativeResult}
use tabssh_harmonyos.Ssh.Calls.{Call, Env, Log, Io, is_again, Turn, again, done, loop}
use tabssh_harmonyos.Ssh.Channel.{wait_for_channel, session_deadline}
use tabssh_harmonyos.Ssh.Effects.{After, After-bind, After-if, After-pure, After-rounds, InTurn}
use tabssh_harmonyos.Ssh.Effects.Held.{
  Held, Held-ask, Held-bind, Held-if, Held-loop, Held-on_pointer, Held-pure, Held-test_again,
  deadline_after-Held, wait_socket-Held, session_error-Held,
}
use tabssh_harmonyos.Ssh.Effects.Runs.{After-ask, After-test, After-Held, After-on_pointer}
use tabssh_harmonyos.Ssh.Sftp.{
  Acquired, got, timed_out, refused, acquire_null, acquire_round, acquire, sftp_acquired,
  ensure_sftp, handle_of, open_sftp_file, ensured, with_sftp,
}
use tabssh_harmonyos.Ssh.Sftp.Traffic.{Traffic, open_remote, traffic, traffic-IgnoresWaits}
use tabssh_harmonyos.Ssh.State.{SessionState, raw, Core}

wait-Held : (s : SessionState) (deadline : ℕ) → Held traffic (wait_for_channel s deadline)
wait-Held s deadline = wait_socket-Held traffic traffic-IgnoresWaits _ _ deadline

acquire_null-Held :
    (s : SessionState) (wait : Io Bool) → Held traffic wait → Held traffic (acquire_null s wait)
unfolding acquire_null
acquire_null-Held s wait h = Held-bind traffic _ _ (Held-ask traffic _ (λ env log. refl)) λ error.
    Held-bind traffic _ _ (Held-test_again traffic error) λ blocked.
      Held-if traffic _ _ _ (Held-pure traffic _)
        (Held-bind traffic _ _ h (λ ready. Held-pure traffic _))

-- A pointer that is no remote file.
acquire-Held :
    (s : SessionState) (call : Call) (wait : Io Bool)
    → ((env : Env) (log : Log) → traffic env (call ∷ log) ≡ traffic env log)
    → Held traffic wait
    → Held traffic (acquire s call wait)
unfolding acquire acquire_round
acquire-Held s call wait ignored h = Held-loop traffic _ _ λ _.
    Held-bind traffic _ _ (Held-ask traffic call ignored)
      λ reply. Held-on_pointer traffic _ _ _ (acquire_null-Held s wait h) (λ p. Held-pure traffic _)

sftp_acquired-Held : (s : SessionState) (a : Acquired) → Held traffic (sftp_acquired s a)
unfolding sftp_acquired
sftp_acquired-Held s (got p) = Held-pure traffic _
sftp_acquired-Held s timed_out = Held-pure traffic _
sftp_acquired-Held s refused =
    Held-bind traffic _ _ (session_error-Held traffic traffic-IgnoresWaits _ _)
      (λ message. Held-pure traffic _)

pub ensure_sftp-Held : (s : SessionState) (deadline : ℕ) → Held traffic (ensure_sftp s deadline)
unfolding ensure_sftp
ensure_sftp-Held s deadline =
    Held-on_pointer traffic _ _ _
      (Held-bind traffic _ _ (acquire-Held s _ _ (λ env log. refl) (wait-Held s deadline))
        (sftp_acquired-Held s))
      (λ p. Held-pure traffic _)

module _ (env : Env) (s : SessionState) (path : Bytes) (writing : Bool) (t : Traffic) where
  -- The file that is open, if any.
  abbrev OpenAcquired : Acquired → Log → Type 0
  OpenAcquired a log = traffic env log ≡ open_remote (handle_of a) path t

  abbrev Acquiring : Turn (Unit {0}) Acquired → Log → Type 0
  Acquiring = InTurn (λ _ l. traffic env l ≡ t) OpenAcquired

  not_acquired :
      (ready : Bool) (log : Log)
      → traffic env log ≡ t
      → Acquiring (if ready then again tt else done timed_out) log
  unfolding handle_of
  not_acquired true log e = e
  not_acquired false log e = e

  acquire_null-After :
      (wait : Io Bool) (log : Log)
      → Held traffic wait
      → traffic env log ≡ t
      → After Acquiring (acquire_null s wait env log)
  unfolding acquire_null handle_of
  acquire_null-After wait log h e =
      let call = Call.last_errno (raw s.session) in
      After-ask Acquiring env log call _ (
        After-test Acquiring env (call ∷ log) (env.answer log call) _ (
          After-if Acquiring (not (is_again env (env.answer log call))) _ _ env (call ∷ log)
            (λ _. After-pure Acquiring _ env (call ∷ log) e)
            (λ _.
              After-Held Acquiring env (call ∷ log) traffic t wait _ h e
                (λ ready l e'. After-pure Acquiring _ env l (not_acquired ready l e')))))

  acquire_open-After :
      (wait : Io Bool) (log : Log)
      → Held traffic wait
      → traffic env log ≡ t
      → After OpenAcquired (acquire s (Call.sftp_open (raw s.sftp) path writing) wait env log)
  unfolding acquire acquire_round loop handle_of
  acquire_open-After wait log h e =
      After-rounds (λ _ l. traffic env l ≡ t) OpenAcquired _ env one_round env.fuel tt log e
    where
      call : Call
      call = Call.sftp_open (raw s.sftp) path writing

      one_round :
          (x : Unit {0}) (l : Log)
          → traffic env l ≡ t
          → After Acquiring (acquire_round s call wait env l)
      one_round x l e' =
          let r = env.answer l call in
          After-ask Acquiring env l call _ (
            After-on_pointer Acquiring env (call ∷ l) r.pointer _ _
              (λ none_given.
                acquire_null-After wait (call ∷ l) h
                  (ap (open_remote r.pointer path) e' ∙ ap (λ o. open_remote o path t) none_given))
              (λ p given.
                After-pure Acquiring _ env (call ∷ l)
                  (ap (open_remote r.pointer path) e' ∙ ap (λ o. open_remote o path t) given)))

  pub open_sftp_file-After :
      (deadline : ℕ) (log : Log)
      → traffic env log ≡ t
      → After
          (λ o l. traffic env l ≡ open_remote o path t)
          (open_sftp_file s path writing deadline env log)
  unfolding open_sftp_file
  open_sftp_file-After deadline log e =
      After-bind OpenAcquired (λ o l. traffic env l ≡ open_remote o path t) _ _ env log
        (acquire_open-After (wait_for_channel s deadline) log (wait-Held s deadline) e)
        (λ a l e'. After-pure (λ o l. traffic env l ≡ open_remote o path t) _ env l e')

-- An operation on a session: it fails before it touches a file, or its own part is run.
module _ (Q : NativeResult → Log → Type 0) (env : Env) (t : Traffic)
    (failed : (r : NativeResult) (log : Log) → r.ok ≡ false → traffic env log ≡ t → Q r log)
    (body : SessionState → ℕ → Io NativeResult)
    (body-After : (s : SessionState) (deadline : ℕ) (log : Log)
      → traffic env log ≡ t
      → After Q (body s deadline env log)) where
  ensured-After :
      (id : Bytes) (core : Core) (deadline : ℕ) (p : NativeResult × SessionState) (log : Log)
      → traffic env log ≡ t
      → After (λ q l. Q q.0 l) (ensured id core body deadline p env log)
  unfolding ensured
  ensured-After id core deadline (status, s) log e =
      After-if (λ q l. Q q.0 l) (not status.ok) _ _ env log
        (λ h. After-pure (λ q l. Q q.0 l) _ env log (failed status log (ground arith) e))
        (λ _.
          After-bind Q (λ q l. Q q.0 l) _ _ env log (body-After s deadline log e)
            (λ r l h. After-pure (λ q l. Q q.0 l) _ env l h))

  pub with_sftp-After :
      (id : Bytes) (core : Core) (s : SessionState) (log : Log)
      → traffic env log ≡ t
      → After (λ q l. Q q.0 l) (with_sftp id core s body env log)
  unfolding with_sftp
  with_sftp-After id core s log e =
      After-Held (λ q l. Q q.0 l) env log traffic t (session_deadline s) _
        (deadline_after-Held traffic traffic-IgnoresWaits _) e
        λ deadline l e'.
          After-Held (λ q l. Q q.0 l) env l traffic t _ _ (ensure_sftp-Held s deadline) e'
            (λ p l' e''. ensured-After id core deadline p l' e'')
