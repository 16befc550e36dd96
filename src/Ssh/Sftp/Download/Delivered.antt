-- ===== src/Ssh/Sftp/Download/Delivered.antt =====
-- `SftpDownload` of entry/src/main/cpp/native_ssh_libssh2.cpp, from the remote to the local file.
use tabssh_harmonyos.Prelude.{
  ℕ, ◌≡◌, refl, sym, ap, ◌∙◌, true, false, ◌||◌, ◌⊎◌, inl, inr, [], ◌∷◌, ◌++◌, Option, none, some,
  Bytes, codes, decimal, is_empty,
}
use tabssh_harmonyos.Json.Result.{NativeResult}
use tabssh_harmonyos.Profile.{failure, invalid_profile}
use tabssh_harmonyos.Ssh.Calls.{Call, Env, Log}
use tabssh_harmonyos.Ssh.Channel.{not_authenticated}
use tabssh_harmonyos.Ssh.Effects.{After, After-bind, After-if, After-pure}
use tabssh_harmonyos.Ssh.Effects.Runs.{After-ask, After-on_pointer, After-weaken}
use tabssh_harmonyos.Ssh.Sftp.{found_sftp, on_sftp}
use tabssh_harmonyos.Ssh.Sftp.Download.{download_to, download_body, sftp_download}
use tabssh_harmonyos.Ssh.Sftp.Download.Saved.{SftpReadFills, kept, Downloaded}
use tabssh_harmonyos.Ssh.Sftp.Download.Integrity.{download_file-After}
use tabssh_harmonyos.Ssh.Sftp.Opening.{open_sftp_file-After, with_sftp-After}
use tabssh_harmonyos.Ssh.Sftp.Traffic.{
  EndsClosed, Traffic, open_remote, create_local, traffic, still-Fails, sftp_failure-Fails,
  give_up_handle-closes,
}
use tabssh_harmonyos.Ssh.Sftp.Upload.Chunk.{wrapped}
use tabssh_harmonyos.Ssh.State.{SessionState, Core}
use tabssh_harmonyos.Ssh.Trust.Globals.{After-eq}

-- A download has failed before anything was read, or all that has been read from the remote file has
-- been handed to the local one, which stays after a success and whose removal is asked for after a
-- failure. A success ends with a call of libssh2_sftp_close_handle that is answered 0.
abbrev pub Downloads : Bytes → Bytes → Traffic → NativeResult → Traffic → Env → Log → Type 0
Downloads remote local t r t' env log =
    ((r.ok ≡ false) × (t' ≡ record t { remote_path = t'.remote_path }))
    ⊎ ((got : Bytes) × (t' ≡ record t {
      from_remote = t.from_remote ++ got;
      to_file = t.to_file ++ got;
      remote_path = remote;
      local_path = local;
      created = kept r.ok local;
    })
        × (r.ok ≡ true → (r.payload ≡ decimal (wrapped got)) × ((h : ℕ) × EndsClosed env h log)))

module _ (env : Env) (fills : SftpReadFills env) (remote local : Bytes) (t : Traffic)
    (shut : t.handle ≡ none) where
  abbrev Q : NativeResult → Log → Type 0
  Q r log = Downloads remote local t r (traffic env log) env log

  failed-Q :
      (path : Bytes) (r : NativeResult) (log : Log)
      → r.ok ≡ false
      → traffic env log ≡ record t { remote_path = path }
      → Q r log
  failed-Q path r log bad e =
      inl (bad, e ∙ ap (λ p. record t { remote_path = p }) (sym (ap (λ x. x.remote_path) e)))

  Downloaded-Q :
      (s : SessionState) (p output : ℕ) (r : NativeResult) (log : Log)
      → Downloaded env fills s p output local
          (record t { remote_path = remote; local_path = local })
          r
          log
      → Q r log
  Downloaded-Q s p output r log (got, e, payload) = inr (
    got,
    e
        ∙ ap
            (λ h. record t {
              from_remote = t.from_remote ++ got;
              to_file = t.to_file ++ got;
              remote_path = remote;
              local_path = local;
              created = kept r.ok local;
              handle = h;
            })
            (sym shut),
    λ k. ((payload k).0, (p, (payload k).1)),
  )

  download_to-After :
      (s : SessionState) (deadline p : ℕ) (log : Log)
      → traffic env log ≡ record t { remote_path = remote; handle = some p }
      → After Q (download_to s deadline local p env log)
  unfolding download_to
  download_to-After s deadline p log e =
      let call = Call.file_open_output local in
      let r = env.answer log call in
      let t' : Traffic = record t { remote_path = remote } in
      let opened : (o : Option ℕ)
          → r.pointer ≡ o
          → traffic env (call ∷ log) ≡ create_local o local (record t' { handle = some p }) =
        λ o h.
          ap (create_local r.pointer local) e
          ∙ ap (λ x. create_local x local (record t' { handle = some p })) h in
      After-ask Q env log call _ (
        After-on_pointer Q env (call ∷ log) r.pointer _ _
          (λ h.
            After-weaken (λ r' l. (r'.ok ≡ false) × (traffic env l ≡ record t' { handle = none })) Q
              _
              (λ r' l f.
                failed-Q remote r' l f.0
                  (f.1 ∙ ap (λ x. record t { remote_path = remote; handle = x }) (sym shut)))
              (give_up_handle-closes env (call ∷ log) s p t' _ (still-Fails env _ _)
                (opened none h)))
          (λ output h.
            After-weaken (Downloaded env fills s p output local (record t' { local_path = local }))
              Q _ (Downloaded-Q s p output)
              (download_file-After env fills s p output local (record t' { local_path = local })
                deadline (call ∷ log) (opened (some output) h))))

  download_body-After :
      (s : SessionState) (deadline : ℕ) (log : Log)
      → traffic env log ≡ t
      → After Q (download_body remote local s deadline env log)
  unfolding download_body
  download_body-After s deadline log e =
      After-bind (λ o l. traffic env l ≡ open_remote o remote t) Q _ _ env log
        (open_sftp_file-After env s remote false t deadline log e)
        λ o l e'.
          After-on_pointer Q env l o _ _
            (λ h.
              After-weaken (λ r l'. (r.ok ≡ false) × (traffic env l' ≡ traffic env l)) Q _
                (λ r l' f.
                  failed-Q t.remote_path r l' f.0 (f.1 ∙ e' ∙ ap (λ x. open_remote x remote t) h))
                (sftp_failure-Fails env s _ _ l))
            (λ p h. download_to-After s deadline p l (e' ∙ ap (λ x. open_remote x remote t) h))

  found_download-After :
      (id : Bytes) (core : Core) (o : Option SessionState) (log : Log)
      → traffic env log ≡ t
      → After (λ q l. Q q.0 l) (found_sftp id core (download_body remote local) o env log)
  unfolding found_sftp
  found_download-After id core none log e =
      After-pure (λ q l. Q q.0 l) _ env log (failed-Q t.remote_path not_authenticated log refl e)
  found_download-After id core (some s) log e =
      with_sftp-After Q env t (λ r l bad e'. failed-Q t.remote_path r l bad e')
        (download_body remote local) download_body-After id core s log e

  sftp_download-After :
      (id : Bytes) (core : Core) (log : Log)
      → traffic env log ≡ t
      → After (λ q l. Q q.0 l) (sftp_download id remote local core env log)
  unfolding sftp_download on_sftp
  sftp_download-After id core log e =
      After-if (λ q l. Q q.0 l) (is_empty local || is_empty remote) _ _ env log
        (λ _.
          After-pure (λ q l. Q q.0 l) _ env log
            (failed-Q t.remote_path (failure invalid_profile (codes "file path is required") []) log
              refl e))
        (λ _. found_download-After id core _ log e)

-- Whatever the network and the streams answer, a download that starts with no remote handle in use and
-- returns has given the handle that it has opened, if any, to libssh2_sftp_close_handle. Either it reports a failure and
-- nothing has been read and no local file opened, or it has opened the two paths, and every byte read
-- from the remote file has been handed to the local one, in order; the removal of the local file is
-- asked for exactly if a failure is reported, and a success reports the length in 64 bits and ends
-- with a call of libssh2_sftp_close_handle that is answered 0; if
-- libssh2_sftp_read hands out as many bytes as it reports.
pub download-delivered :
    (env : Env) (id remote local : Bytes) (core : Core) (log : Log) {result : NativeResult}
    {core' : Core} {log' : Log}
    → SftpReadFills env
    → (traffic env log).handle ≡ none
    → sftp_download id remote local core env log ≡ some ((result, core'), log')
    → Downloads remote local (traffic env log) result (traffic env log') env log'
download-delivered env id remote local core log fills shut e =
    After-eq (λ q l. Downloads remote local (traffic env log) q.0 (traffic env l) env l) _ _ _
      (sftp_download-After env fills remote local (traffic env log) shut id core log refl) e
