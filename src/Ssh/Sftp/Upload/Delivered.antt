-- ===== src/Ssh/Sftp/Upload/Delivered.antt =====
-- `SftpUpload` of entry/src/main/cpp/native_ssh_libssh2.cpp, from the local to the remote file.
use tabssh_harmonyos.Prelude.{
  ℕ, ◌≡◌, refl, sym, ap, ◌∙◌, true, false, ◌||◌, ◌⊎◌, inl, inr, [], ◌∷◌, ◌++◌, Option, none, some,
  Bytes, codes, decimal, is_empty,
}
use tabssh_harmonyos.Prelude.Int.{negsuc}
use tabssh_harmonyos.Json.Result.{NativeResult}
use tabssh_harmonyos.Profile.{failure, invalid_profile}
use tabssh_harmonyos.Ssh.Calls.{Call, Env, Log}
use tabssh_harmonyos.Ssh.Channel.{not_authenticated}
use tabssh_harmonyos.Ssh.Effects.{After, After-bind, After-if, After-pure}
use tabssh_harmonyos.Ssh.Effects.Runs.{After-ask, After-on_pointer, After-weaken}
use tabssh_harmonyos.Ssh.Sftp.Opening.{open_sftp_file-After, with_sftp-After}
use tabssh_harmonyos.Ssh.Sftp.Traffic.{
  EndsClosed, Traffic, open_remote, open_local, traffic, sftp_failure-Fails,
}
use tabssh_harmonyos.Ssh.Sftp.Upload.{upload_body, upload_found, sftp_upload}
use tabssh_harmonyos.Ssh.Sftp.Upload.Chunk.{SftpTakesOffered, wrapped, Uploaded}
use tabssh_harmonyos.Ssh.Sftp.Upload.Integrity.{upload_file-After}
use tabssh_harmonyos.Ssh.State.{SessionState, Core}
use tabssh_harmonyos.Ssh.Trust.Globals.{After-eq}

-- An upload has failed before anything was read, or the remote file has taken the first part of what has
-- been read from the local one, and all of it after a success, which reports its length.
abbrev pub Uploads : Bytes → Bytes → Traffic → NativeResult → Traffic → Env → Log → Type 0
Uploads local remote t r t' env log =
    ((r.ok ≡ false) × (t' ≡ record t { local_path = t'.local_path }))
    ⊎ ((taken : Bytes) × (rest : Bytes) × (t' ≡ record t {
      from_file = t.from_file ++ (taken ++ rest);
      to_remote = t.to_remote ++ taken;
      remote_path = remote;
      local_path = local;
    })
        × (r.ok ≡ true
            → (rest ≡ [])
              × (r.payload ≡ decimal (wrapped taken))
              × ((h : ℕ) × EndsClosed env h log)))

module _ (env : Env) (offered : SftpTakesOffered env) (local remote : Bytes) (t : Traffic)
    (shut : t.handle ≡ none) where
  abbrev Q : NativeResult → Log → Type 0
  Q r log = Uploads local remote t r (traffic env log) env log

  failed-Q :
      (path : Bytes) (r : NativeResult) (log : Log)
      → r.ok ≡ false
      → traffic env log ≡ record t { local_path = path }
      → Q r log
  failed-Q path r log bad e =
      inl (bad, e ∙ ap (λ p. record t { local_path = p }) (sym (ap (λ x. x.local_path) e)))

  Uploaded-Q :
      (s : SessionState) (p : ℕ) (r : NativeResult) (log : Log)
      → Uploaded env offered s p (record t { local_path = local; remote_path = remote }) r log
      → Q r log
  Uploaded-Q s p r log (taken, rest, e, whole) = inr (
    taken,
    rest,
    e
        ∙ ap
            (λ h. record t {
              from_file = t.from_file ++ (taken ++ rest);
              to_remote = t.to_remote ++ taken;
              remote_path = remote;
              local_path = local;
              handle = h;
            })
            (sym shut),
    λ k. (((whole k).0, (whole k).1, (p, (whole k).2))),
  )

  upload_body-After :
      (input : ℕ) (s : SessionState) (deadline : ℕ) (log : Log)
      → traffic env log ≡ record t { local_path = local }
      → After Q (upload_body input remote s deadline env log)
  unfolding upload_body
  upload_body-After input s deadline log e =
      After-bind (λ o l. traffic env l ≡ open_remote o remote (record t { local_path = local })) Q _
        _ env log
        (open_sftp_file-After env s remote true (record t { local_path = local }) deadline log e)
        λ o l e'.
          After-on_pointer Q env l o _ _
            (λ h.
              After-weaken (λ r l'. (r.ok ≡ false) × (traffic env l' ≡ traffic env l)) Q _
                (λ r l' f.
                  failed-Q local r l' f.0
                    (f.1 ∙ e' ∙ ap (λ x. open_remote x remote (record t { local_path = local })) h))
                (sftp_failure-Fails env s _ _ l))
            (λ p h.
              let b : Traffic = record t { local_path = local; remote_path = remote } in
              After-weaken (Uploaded env offered s p b) Q _ (Uploaded-Q s p) (
                upload_file-After env offered s p b input deadline l
                  (e' ∙ ap (λ x. open_remote x remote (record t { local_path = local })) h)))

  upload_found-After :
      (id : Bytes) (core : Core) (o : Option SessionState) (log : Log)
      → traffic env log ≡ t
      → After (λ q l. Q q.0 l) (upload_found id local remote core o env log)
  unfolding upload_found
  upload_found-After id core none log e =
      After-pure (λ q l. Q q.0 l) _ env log (failed-Q t.local_path not_authenticated log refl e)
  upload_found-After id core (some s) log e =
      let call = Call.file_open_input local in
      let r = env.answer log call in
      After-ask (λ q l. Q q.0 l) env log call _
        (After-on_pointer (λ q l. Q q.0 l) env (call ∷ log) r.pointer _ _
          (λ h.
            After-pure (λ q l. Q q.0 l) _ env (call ∷ log)
              (failed-Q t.local_path
                (failure (negsuc 0) (codes "local file could not be opened") []) (call ∷ log) refl
                (ap (open_local r.pointer local) e ∙ ap (λ x. open_local x local t) h)))
          (λ input h.
            with_sftp-After Q env (record t { local_path = local })
              (λ r l bad e'. failed-Q local r l bad e') (upload_body input remote)
              (upload_body-After input) id core s (call ∷ log)
              (ap (open_local r.pointer local) e ∙ ap (λ x. open_local x local t) h)))

  sftp_upload-After :
      (id : Bytes) (core : Core) (log : Log)
      → traffic env log ≡ t
      → After (λ q l. Q q.0 l) (sftp_upload id local remote core env log)
  unfolding sftp_upload
  sftp_upload-After id core log e =
      After-if (λ q l. Q q.0 l) (is_empty local || is_empty remote) _ _ env log
        (λ _.
          After-pure (λ q l. Q q.0 l) _ env log
            (failed-Q t.local_path (failure invalid_profile (codes "file path is required") []) log
              refl e))
        (λ _. upload_found-After id core _ log e)

-- Whatever the network and the streams answer, an upload that starts with no remote handle in use and
-- returns has given the handle that it has opened, if any, to libssh2_sftp_close_handle. Either it reports a failure and nothing has been moved, or it has opened
-- the two paths, and the remote file has taken, in order, a first part of what was read from the local
-- one; all of it if a success is reported, which reports its length in 64 bits
-- and ends with a call of libssh2_sftp_close_handle that is answered 0; if no call of libssh2_sftp_write
-- takes more than it is offered.
pub upload-delivered :
    (env : Env) (id local remote : Bytes) (core : Core) (log : Log) {result : NativeResult}
    {core' : Core} {log' : Log}
    → SftpTakesOffered env
    → (traffic env log).handle ≡ none
    → sftp_upload id local remote core env log ≡ some ((result, core'), log')
    → Uploads local remote (traffic env log) result (traffic env log') env log'
upload-delivered env id local remote core log offered shut e =
    After-eq (λ q l. Uploads local remote (traffic env log) q.0 (traffic env l) env l) _ _ _
      (sftp_upload-After env offered local remote (traffic env log) shut id core log refl) e
