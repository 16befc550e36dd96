-- ===== src/Ssh/Trust/SftpSessions.antt =====
-- Every SFTP operation of entry/src/main/cpp/native_ssh_libssh2.cpp keeps all sessions trusted and sends
-- no credentials.
use tabssh_harmonyos.Prelude.{ℕ, ◌≡◌, refl, not, ◌||◌, Option, none, some, Bytes, is_empty, arith}
use tabssh_harmonyos.Prelude.Int.{pos, ltb_ℤ}
use tabssh_harmonyos.Prelude.Map.{lookup}
use tabssh_harmonyos.Json.Result.{NativeResult}
use tabssh_harmonyos.Ssh.Calls.{Call, Io}
use tabssh_harmonyos.Ssh.Effects.{
  is_credential, Quiet, Quiet-pure, Quiet-after, Quiet-bind, Quiet-either, Quiet-on_pointer,
  Quiet-ask, Silent,
}
use tabssh_harmonyos.Ssh.Sftp.{
  Acquired, got, timed_out, refused, sftp_acquired, ensure_sftp, ensured, with_sftp, found_sftp,
  on_sftp,
}
use tabssh_harmonyos.Ssh.Sftp.Download.{sftp_download}
use tabssh_harmonyos.Ssh.Sftp.Listing.{sftp_list}
use tabssh_harmonyos.Ssh.Sftp.Requests.{
  sftp_mkdir, sftp_remove, sftp_rename, sftp_chmod, mkdir_messages, rename_messages, chmod_messages,
}
use tabssh_harmonyos.Ssh.Sftp.Upload.{upload_found, sftp_upload}
use tabssh_harmonyos.Ssh.State.{SessionState, Core, usable, find_authenticated_session}
use tabssh_harmonyos.Ssh.Trust.Globals.{AllTrusted, insert-AllTrusted}
use tabssh_harmonyos.Ssh.Trust.KeyCheck.{IsTrusted}
use tabssh_harmonyos.Ssh.Sftp.Operations.{
  Operation, lists, uploads, downloads, makes_directory, removes, renames, changes_mode, operate,
}
use tabssh_harmonyos.Ssh.Trust.Requests.{request-Silent, removal-Silent, list_body-Silent}
use tabssh_harmonyos.Ssh.Trust.Silence.{
  deadline_after-Silent, wait_socket-Silent, session_error-Silent,
}
use tabssh_harmonyos.Ssh.Trust.Transfers.{acquire-Silent, upload_body-Silent, download_body-Silent}

sftp_acquired-IsTrusted :
    (s : SessionState) (a : Acquired) → IsTrusted s → Quiet (λ p. IsTrusted p.1) (sftp_acquired s a)
unfolding sftp_acquired
sftp_acquired-IsTrusted s (got p) h = Quiet-pure _ (record {
  key_expected = h.key_expected;
  key_known = h.key_known;
  handshaken = h.handshaken;
  key_first = h.key_first;
})
sftp_acquired-IsTrusted s timed_out h = Quiet-pure _ h
sftp_acquired-IsTrusted s refused h =
    Quiet-after _ _ (session_error-Silent _ _) (λ m. Quiet-pure _ h)

ensure_sftp-IsTrusted :
    (s : SessionState) (t : ℕ) → IsTrusted s → Quiet (λ p. IsTrusted p.1) (ensure_sftp s t)
unfolding ensure_sftp is_credential
ensure_sftp-IsTrusted s t h =
    Quiet-on_pointer s.sftp _ _
      (Quiet-after _ _ (acquire-Silent s _ _ refl (wait_socket-Silent _ _ t))
        (λ a. sftp_acquired-IsTrusted s a h))
      (λ p. Quiet-pure _ h)

abbrev StillTrusted : NativeResult × Core → Type 0
StillTrusted o = AllTrusted o.1

module _ (body : SessionState → ℕ → Io NativeResult)
    (silent : (s : SessionState) (t : ℕ) → Silent (body s t)) where
  ensured-AllTrusted :
      (id : Bytes) (core : Core) (t : ℕ) (p : NativeResult × SessionState)
      → AllTrusted core
      → IsTrusted p.1
      → Quiet StillTrusted (ensured id core body t p)
  unfolding ensured
  ensured-AllTrusted id core t (status, s) all h =
      let safe = insert-AllTrusted core.sessions id s all h in
      Quiet-either (not status.ok) _ _ (Quiet-pure _ safe)
        (Quiet-after _ _ (silent s t) (λ r. Quiet-pure _ safe))

  with_sftp-AllTrusted :
      (id : Bytes) (core : Core) (s : SessionState)
      → AllTrusted core
      → IsTrusted s
      → Quiet StillTrusted (with_sftp id core s body)
  unfolding with_sftp
  with_sftp-AllTrusted id core s all h = Quiet-after _ _ (deadline_after-Silent _) λ t.
      Quiet-bind (λ p. IsTrusted p.1) StillTrusted _ _ (ensure_sftp-IsTrusted s t h)
        (λ p k. ensured-AllTrusted id core t p all k)

  found_sftp-AllTrusted :
      (id : Bytes) (core : Core) (o : Option SessionState)
      → AllTrusted core
      → ((s : SessionState) → o ≡ some s → IsTrusted s)
      → Quiet StillTrusted (found_sftp id core body o)
  unfolding found_sftp
  found_sftp-AllTrusted id core none all h = Quiet-pure _ all
  found_sftp-AllTrusted id core (some s) all h = with_sftp-AllTrusted id core s all (h s refl)

found-IsTrusted :
    (id : Bytes) (core : Core) (s : SessionState)
    → AllTrusted core
    → find_authenticated_session core id ≡ some s
    → IsTrusted s
unfolding find_authenticated_session
found-IsTrusted id core s all e = all id s (same (lookup id core.sessions) e)
  where
    same : (o : Option SessionState) → usable o ≡ some s → o ≡ some s
    same none h = absurd (unfold usable in cc)
    same (some t) h = unfold usable in ground arith

on_sftp-AllTrusted :
    (id : Bytes) (core : Core) (body : SessionState → ℕ → Io NativeResult)
    → ((s : SessionState) (t : ℕ) → Silent (body s t))
    → AllTrusted core
    → Quiet StillTrusted (on_sftp id core body)
unfolding on_sftp
on_sftp-AllTrusted id core body silent all =
    found_sftp-AllTrusted body silent id core _ all (λ s e. found-IsTrusted id core s all e)

upload_found-AllTrusted :
    (id local remote : Bytes) (core : Core) (o : Option SessionState)
    → AllTrusted core
    → ((s : SessionState) → o ≡ some s → IsTrusted s)
    → Quiet StillTrusted (upload_found id local remote core o)
unfolding upload_found is_credential
upload_found-AllTrusted id local remote core none all h = Quiet-pure _ all
upload_found-AllTrusted id local remote core (some s) all h =
    Quiet-after _ _ (Quiet-ask _ refl) λ r.
      Quiet-on_pointer r.pointer _ _ (Quiet-pure _ all)
        (λ input. with_sftp-AllTrusted _ (upload_body-Silent input remote) id core s all (h s refl))

pub operate-AllTrusted :
    (id : Bytes) (operation : Operation) (core : Core)
    → AllTrusted core
    → Quiet (λ o. AllTrusted o.1) (operate id operation core)
unfolding sftp_list sftp_upload sftp_download sftp_mkdir sftp_remove sftp_rename sftp_chmod
    is_credential
operate-AllTrusted id (lists path) core all =
    on_sftp-AllTrusted id core _ (list_body-Silent path) all
operate-AllTrusted id (uploads local remote) core all =
    Quiet-either (is_empty local || is_empty remote) _ _ (Quiet-pure _ all)
      (upload_found-AllTrusted id local remote core _ all (λ s e. found-IsTrusted id core s all e))
operate-AllTrusted id (downloads remote local) core all =
    Quiet-either (is_empty local || is_empty remote) _ _ (Quiet-pure _ all)
      (on_sftp-AllTrusted id core _ (download_body-Silent remote local) all)
operate-AllTrusted id (makes_directory path) core all =
    Quiet-either (is_empty path) _ _ (Quiet-pure _ all) (
      on_sftp-AllTrusted id core _
        (request-Silent (λ sftp. Call.sftp_mkdir sftp path) mkdir_messages (λ sftp. refl)) all)
operate-AllTrusted id (removes path directory) core all =
    Quiet-either (is_empty path) _ _ (Quiet-pure _ all)
      (on_sftp-AllTrusted id core _ (request-Silent _ _ (removal-Silent path directory)) all)
operate-AllTrusted id (renames source destination) core all =
    Quiet-either (is_empty source || is_empty destination) _ _ (Quiet-pure _ all) (
      on_sftp-AllTrusted id core _
        (request-Silent (λ sftp. Call.sftp_rename sftp source destination) rename_messages
          (λ sftp. refl))
        all)
operate-AllTrusted id (changes_mode path mode) core all =
    Quiet-either (is_empty path || ltb_ℤ mode (pos 0) || ltb_ℤ (pos 4095) mode) _ _
      (Quiet-pure _ all)
      (on_sftp-AllTrusted id core _
        (request-Silent (λ sftp. Call.sftp_set_permissions sftp path mode) chmod_messages
          (λ sftp. refl))
        all)
