-- ===== src/Ssh/Trust/Globals.antt =====
-- The sessions of entry/src/main/cpp/native_ssh_libssh2.cpp stay trusted under every operation, and
-- `Connect` hands credentials to libssh2 only for a session whose host key is confirmed.
use mathlib.Core.Bool.{false≢true}
use mathlib.Core.Path.{subst}
use tabssh_harmonyos.Prelude.{
  ◌≡◌, refl, sym, ap, ◌∙◌, ◌⊎◌, inl, inr, true, false, not, Option, none, some, arith, Bytes,
  equal_refl,
}
use tabssh_harmonyos.Prelude.Int.{pos, eqb_ℤ}
use tabssh_harmonyos.Prelude.Map.{
  Map, lookup, insert, lookup-insert, lookup-insert_cases, lookup-erase_kept, erase-insert,
}
use tabssh_harmonyos.Json.Result.{NativeResult}
use tabssh_harmonyos.Ssh.Calls.{Env, Log}
use tabssh_harmonyos.Ssh.Disconnect.{begin_found, begin_disconnect, with_session, without_session}
use tabssh_harmonyos.Ssh.Effects.{sent, After, After-bind, After-if, After-pure}
use tabssh_harmonyos.Ssh.Session.{
  create_session, connect_session, connect_found, connect, confirm_session, confirm_found,
  confirm_host_key,
}
use tabssh_harmonyos.Ssh.State.{SessionState, Core}
use tabssh_harmonyos.Ssh.Trust.Credentials.{Checked, Sends, connect_session-Checked}
use tabssh_harmonyos.Ssh.Trust.KeyCheck.{IsTrusted}

abbrev pub AllTrusted : Core → Type 0
AllTrusted core = (id : Bytes) (s : SessionState) → lookup id core.sessions ≡ some s → IsTrusted s

pub insert-AllTrusted :
    (m : Map SessionState) (id : Bytes) (s : SessionState)
    → ((j : Bytes) (t : SessionState) → lookup j m ≡ some t → IsTrusted t)
    → IsTrusted s
    → (j : Bytes) (t : SessionState) → lookup j (insert id s m) ≡ some t
    → IsTrusted t
insert-AllTrusted m id s all h j t e = elim (lookup-insert_cases id j s t m e) [
  | inl same ↦ subst IsTrusted same h
  | inr old ↦ all j t old
]

confirm_session-IsTrusted :
    (fingerprint : Bytes) (s : SessionState)
    → IsTrusted s
    → IsTrusted (confirm_session fingerprint s).1
unfolding confirm_session
confirm_session-IsTrusted fingerprint s t = ground arith

-- A new session is trusted.
pub create_session-AllTrusted :
    (json : Bytes) (core : Core) → AllTrusted core → AllTrusted (create_session json core).1
unfolding create_session
create_session-AllTrusted json core all = insert-AllTrusted core.sessions _ _ all (ground arith)

pub confirm_host_key-AllTrusted :
    (id fingerprint : Bytes) (core : Core)
    → AllTrusted core
    → AllTrusted (confirm_host_key id fingerprint core).1
unfolding confirm_host_key
confirm_host_key-AllTrusted id fingerprint core all = found (lookup id core.sessions) refl
  where
    found :
        (o : Option SessionState)
        → lookup id core.sessions ≡ o
        → AllTrusted (confirm_found id fingerprint core o).1
    found none e = all
    found (some s) e =
        insert-AllTrusted core.sessions id _ all
          (confirm_session-IsTrusted fingerprint s (all id s e))

pub begin_disconnect-AllTrusted :
    (id : Bytes) (core : Core) → AllTrusted core → AllTrusted (begin_disconnect id core).1
unfolding begin_disconnect
begin_disconnect-AllTrusted id core all = found (lookup id core.sessions) refl
  where
    found :
        (o : Option SessionState)
        → lookup id core.sessions ≡ o
        → AllTrusted (begin_found id core o).1
    found none e = all
    found (some s) e = insert-AllTrusted core.sessions id _ all (marked (all id s e))
      where
        marked : IsTrusted s → IsTrusted (record s { disconnecting = true })
        marked t = ground arith

pub without_session-AllTrusted :
    (id : Bytes) (s : SessionState) (core : Core)
    → AllTrusted core
    → AllTrusted (without_session id (with_session id s core))
unfolding without_session
without_session-AllTrusted id s core all j t e = all j t (
    lookup-erase_kept id j t core.sessions
      (sym (ap (lookup j) (erase-insert id s core.sessions)) ∙ e))

-- What `Connect` leaves: trusted sessions; credentials only for the session of this id, and only if its
-- host key is confirmed; and after a success that session is authenticated.
pub record ConnectSafe (id : Bytes) (before : Log) (o : NativeResult × Core) (after : Log)
    : Type 0 where
  pub all_trusted : AllTrusted o.1
  pub sends :
      (sent after ≡ sent before)
      ⊎ ((s : SessionState) × (lookup id o.1.sessions ≡ some s) × Sends s before after)
  pub enters :
      o.0.ok ≡ true
      → (s : SessionState) × (lookup id o.1.sessions ≡ some s) × (s.authenticated ≡ true)

silent-ConnectSafe :
    (id : Bytes) (log : Log) (r : NativeResult) (core : Core)
    → AllTrusted core
    → r.ok ≡ false
    → ConnectSafe id log (r, core) log
silent-ConnectSafe id log r core all h = record {
  all_trusted = all;
  sends = inl refl;
  enters = λ k. absurd (false≢true (sym h ∙ k));
}

stored-ConnectSafe :
    (id : Bytes) (core : Core) (log : Log) (o : NativeResult × SessionState) (log' : Log)
    → AllTrusted core
    → Checked log o log'
    → ConnectSafe id log (o.0, record core { sessions = insert id o.1 core.sessions }) log'
stored-ConnectSafe id core log (r, s) log' all (t, sends, ok) = record {
  all_trusted = insert-AllTrusted core.sessions id s all t;
  sends = inr (s, stored, sends);
  enters = λ k. (s, stored, ok k);
}
  where
    stored : lookup id (insert id s core.sessions) ≡ some s
    stored = lookup-insert id id s core.sessions ∙ rw (equal_refl id)

connect-After :
    (env : Env) (id : Bytes) (core : Core) (log : Log)
    → AllTrusted core
    → After (ConnectSafe id log) (connect id core env log)
unfolding connect
connect-After env id core log all =
    After-if (ConnectSafe id log) (not (eqb_ℤ core.runtime_status (pos 0))) _ _ env log
      (λ _. After-pure _ _ env log (silent-ConnectSafe id log _ core all refl))
      (λ _. found (lookup id core.sessions) refl)
  where
    found :
        (o : Option SessionState)
        → lookup id core.sessions ≡ o
        → After (ConnectSafe id log) (connect_found id core o env log)
    found none e = After-pure _ _ env log (silent-ConnectSafe id log _ core all refl)
    found (some s) e =
        After-bind (Checked log) (ConnectSafe id log) (connect_session s) _ env log
          (connect_session-Checked env s log (all id s e))
          (λ o log' c. After-pure _ _ env log' (stored-ConnectSafe id core log o log' all c))

pub After-eq :
    {A : Type 0} (Q : A → Log → Type 0) (a : A) (log : Log) (o : Option (A × Log))
    → After Q o
    → o ≡ some (a, log)
    → Q a log
After-eq Q a log o h e = subst (After Q) e h

-- However libssh2 and the network behave, a `Connect` that returns keeps every session trusted; it has
-- handed over no credentials but those of the session of its id, these only if the session's host key
-- is confirmed, which makes it the expected one; and if it reports success that session is
-- authenticated.
pub connect-ConnectSafe :
    (env : Env) (id : Bytes) (core : Core) (log : Log) {result : NativeResult} {core' : Core}
    {log' : Log}
    → AllTrusted core
    → connect id core env log ≡ some ((result, core'), log')
    → ConnectSafe id log (result, core') log'
connect-ConnectSafe env id core log all e =
    After-eq (ConnectSafe id log) _ _ _ (connect-After env id core log all) e
