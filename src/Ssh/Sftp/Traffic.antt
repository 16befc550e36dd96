-- ===== src/Ssh/Sftp/Traffic.antt =====
-- What passes through the transfers of entry/src/main/cpp/native_ssh_libssh2.cpp, as seen in the log.
use mathlib.Core.Bool.{false≢true}
use tabssh_harmonyos.Prelude.{
  ℕ, ◌+◌, ◌*◌, ◌∷◌, ◌≡◌, refl, sym, ap, ◌∙◌, Bool, true, false, [], ◌++◌, Option, none, some, Bytes,
  equal, take, ◌==◌, ==_iff, if◌then◌else◌,
}
use tabssh_harmonyos.Prelude.Int.{ℤ, pos, pos_part, eqb_ℤ_iff}
use tabssh_harmonyos.Json.Result.{NativeResult}
use tabssh_harmonyos.Ssh.Calls.{Call, Reply, Env, Log, Io}
use tabssh_harmonyos.Ssh.Channel.{wait_for_channel}
use tabssh_harmonyos.Ssh.Effects.{After, After-bind, After-pure}
use tabssh_harmonyos.Ssh.Effects.Held.{
  View, seen, IgnoresWaits, deadline_after-Held, wait_socket-Held, session_error-Held,
}
use tabssh_harmonyos.Ssh.Effects.Runs.{After-Held, After-weaken, retry-settled}
use tabssh_harmonyos.Ssh.Effects.Settled.{deeds, deeds-IgnoresWaits, Settled, answered, gave_up}
use tabssh_harmonyos.Ssh.Effects.Tasks.{After-deadline, After-retry}
use tabssh_harmonyos.Ssh.Sftp.{close_sftp_handle, closed_well}
use tabssh_harmonyos.Ssh.Sftp.Upload.{give_up_handle, still, sftp_failure}
use tabssh_harmonyos.Ssh.State.{SessionState, raw}

-- The bytes read from local files, taken by and read from the open remote file, and written to local
-- files; the remote handle that has been opened and not yet given to libssh2_sftp_close_handle, the
-- paths of the remote and of the local file that have been opened last, and the local file that has been
-- created and whose removal has not been asked for.
pub record Traffic : Type 0 where
  pub from_file : Bytes
  pub to_remote : Bytes
  pub from_remote : Bytes
  pub to_file : Bytes
  pub handle : Option ℕ
  pub remote_path : Bytes
  pub local_path : Bytes
  pub created : Option Bytes

abbrev pub without_handle : ℕ → Option ℕ → Option ℕ
without_handle h none = none
without_handle h (some p) = if p == h then none else some p

abbrev pub without_file : Bytes → Option Bytes → Option Bytes
without_file path none = none
without_file path (some p) = if equal p path then none else some p

abbrev pub holds : ℕ → Option ℕ → Bool
holds h none = false
holds h (some p) = p == h

abbrev pub open_remote : Option ℕ → Bytes → Traffic → Traffic
open_remote none path t = t
open_remote (some p) path t = record t { handle = some p; remote_path = path }

abbrev pub open_local : Option ℕ → Bytes → Traffic → Traffic
open_local none path t = t
open_local (some p) path t = record t { local_path = path }

abbrev pub create_local : Option ℕ → Bytes → Traffic → Traffic
create_local none path t = t
create_local (some p) path t = record t { local_path = path; created = some path }

-- What a call moves; a call on another handle than the open one moves nothing.
abbrev pub move : Call → Reply → Traffic → Traffic
move (Call.file_read s n) r t = record t { from_file = t.from_file ++ r.bytes }
move (Call.sftp_write h text) r t =
    if holds h t.handle
    then record t { to_remote = t.to_remote ++ take (pos_part r.value) text }
    else t
move (Call.sftp_read h n) r t =
    if holds h t.handle
    then record t { from_remote = t.from_remote ++ take (pos_part r.value) r.bytes }
    else t
move (Call.file_write s text) r t = record t { to_file = t.to_file ++ text }
move (Call.sftp_open s path w) r t = open_remote r.pointer path t
move (Call.sftp_close_handle h) r t = record t { handle = without_handle h t.handle }
move (Call.file_open_input path) r t = open_local r.pointer path t
move (Call.file_open_output path) r t = create_local r.pointer path t
move (Call.file_remove path) r t = record t { created = without_file path t.created }
move _ r t = t

abbrev pub no_traffic : Traffic
no_traffic = record {
  from_file = [];
  to_remote = [];
  from_remote = [];
  to_file = [];
  handle = none;
  remote_path = [];
  local_path = [];
  created = none;
}

abbrev pub traffic : View Traffic
traffic = seen move no_traffic

pub traffic-IgnoresWaits : IgnoresWaits traffic
traffic-IgnoresWaits = record {
  clock = λ env log. refl;
  directions = λ s env log. refl;
  polling = λ fd i o t env log. refl;
  error = λ s env log. refl;
  errno = λ s env log. refl;
}

closed :
    (h : ℕ) (t : Traffic)
    → record t { handle = without_handle h (some h) } ≡ record t { handle = none }
closed h t = rw ((==_iff h h).1 refl) refl

-- Giving the open handle to libssh2_sftp_close_handle.
pub close_sftp_handle-closes :
    (env : Env) (log : Log) (s : SessionState) (h : ℕ) (t : Traffic)
    → traffic env log ≡ record t { handle = some h }
    → After
        (λ _ log'. traffic env log' ≡ record t { handle = none })
        (close_sftp_handle s h env log)
unfolding close_sftp_handle
close_sftp_handle-closes env log s h t e =
    let Q : Bool → Log → Type 0 = λ _ log'. traffic env log' ≡ record t { handle = none } in
    After-Held Q env log traffic (record t { handle = some h }) _ _
      (deadline_after-Held traffic traffic-IgnoresWaits 2000) e
      λ deadline log' e'.
        After-bind (λ _ l. traffic env l ≡ record t { handle = none }) Q _ _ env log'
          (retry-settled move no_traffic (record t { handle = none }) (Call.sftp_close_handle h)
            (wait_for_channel s deadline) env log'
            (λ r. ap (move (Call.sftp_close_handle h) r) e' ∙ closed h t) (λ r. refl)
            (wait_socket-Held traffic traffic-IgnoresWaits _ _ deadline))
          (λ o l e''. After-pure Q _ env l e'')

-- An answer of failure, which changes nothing.
abbrev pub Fails : Env → Io NativeResult → Type 0
Fails env m =
    (log : Log)
    → After (λ r log'. (r.ok ≡ false) × (traffic env log' ≡ traffic env log)) (m env log)

pub still-Fails : (env : Env) (code : ℤ) (message : Bytes) → Fails env (still code message)
still-Fails env code message = λ log. After-pure _ _ env log (refl, refl)

pub sftp_failure-Fails :
    (env : Env) (s : SessionState) (code : ℤ) (message : Bytes)
    → Fails env (sftp_failure s code message)
sftp_failure-Fails env s code message = λ log.
    After-Held (λ r log'. (r.ok ≡ false) × (traffic env log' ≡ traffic env log)) env log traffic
      (traffic env log) _ _
      (session_error-Held traffic traffic-IgnoresWaits (raw s.session) message) refl
      (λ m log' e. After-pure _ _ env log' (refl, e))

-- A transfer that gives up: the handle is closed and the answer is a failure.
pub give_up_handle-closes :
    (env : Env) (log : Log) (s : SessionState) (h : ℕ) (t : Traffic) (m : Io NativeResult)
    → Fails env m
    → traffic env log ≡ record t { handle = some h }
    → After
        (λ r log'. (r.ok ≡ false) × (traffic env log' ≡ record t { handle = none }))
        (give_up_handle s h m env log)
unfolding give_up_handle
give_up_handle-closes env log s h t m fails e =
    After-bind (λ _ l. traffic env l ≡ record t { handle = none }) _ (close_sftp_handle s h)
      (λ _. m) env log (close_sftp_handle-closes env log s h t e)
      (λ closed l e'.
        After-weaken (λ r log'. (r.ok ≡ false) × (traffic env log' ≡ traffic env l)) _ (m env l)
          (λ r log' f. (f.0, f.1 ∙ e')) (fails l))

-- The last call is libssh2_sftp_close_handle, and its answer is 0.
abbrev pub EndsClosed : Env → ℕ → Log → Type 0
EndsClosed env h log' =
    (log : Log) × (log' ≡ Call.sftp_close_handle h ∷ log)
    × ((env.answer log (Call.sftp_close_handle h)).value ≡ pos 0)

module _ (env : Env) (s : SessionState) (h : ℕ) (log : Log) where
  abbrev SettledClose : Bool → Log → Type 0
  SettledClose b l =
      (o : Option Reply) × Settled env (Call.sftp_close_handle h)
        (wait_for_channel s ((env.answer log Call.clock_now).number + 2000 * 1000000))
        (Call.clock_now ∷ log) o l
      × (b ≡ closed_well o)

  close_sftp_handle-After : After SettledClose (close_sftp_handle s h env log)
  unfolding close_sftp_handle
  close_sftp_handle-After =
      let d = (env.answer log Call.clock_now).number + 2000 * 1000000 in
      After-deadline SettledClose env log 2000 _ (
        After-retry SettledClose env (Call.clock_now ∷ log) (Call.sftp_close_handle h)
          (wait_for_channel s d) _ refl (wait_socket-Held deeds deeds-IgnoresWaits _ _ d)
          (λ o l settled. After-pure SettledClose (closed_well o) env l (o, settled, refl)))

  closed-EndsClosed : (b : Bool) (l : Log) → SettledClose b l → b ≡ true → EndsClosed env h l
  unfolding closed_well
  closed-EndsClosed b l (o, answered n x e again q f, w) t = (
    x,
    f,
    (eqb_ℤ_iff (env.answer x (Call.sftp_close_handle h)).value (pos 0)).0
        (sym (ap closed_well q) ∙ sym w ∙ t),
  )
  closed-EndsClosed b l (o, gave_up n x e again w' q, w) t =
      absurd (false≢true (sym (ap closed_well q) ∙ sym w ∙ t))

  -- Closing the open handle, with what follows from an answer of true.
  pub close_sftp_handle-ends :
      (t : Traffic)
      → traffic env log ≡ record t { handle = some h }
      → After
          (λ closed l.
            (traffic env l ≡ record t { handle = none }) × (closed ≡ true → EndsClosed env h l))
          (close_sftp_handle s h env log)
  close_sftp_handle-ends t e =
      both (close_sftp_handle s h env log) (close_sftp_handle-closes env log s h t e)
        close_sftp_handle-After
    where
      both :
          (o : Option (Bool × Log))
          → After (λ _ l. traffic env l ≡ record t { handle = none }) o
          → After SettledClose o
          → After
              (λ closed l.
                (traffic env l ≡ record t { handle = none }) × (closed ≡ true → EndsClosed env h l))
              o
      both none p q = tt
      both (some (b, l)) p q = (p, closed-EndsClosed b l q)
