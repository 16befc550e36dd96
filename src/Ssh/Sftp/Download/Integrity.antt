-- ===== src/Ssh/Sftp/Download/Integrity.antt =====
-- What a download of entry/src/main/cpp/native_ssh_libssh2.cpp leaves at the local file.
use mathlib.Core.Path.{subst}
use tabssh_harmonyos.Prelude.{
  ℕ, ◌≤◌, ◌≡◌, refl, sym, ap, ◌∙◌, Bool, true, false, not, ◌⊎◌, inl, inr, [], ◌∷◌, ◌++◌, none, some,
  Bytes, append_assoc, append-nil, arith, decimal, length, ==_iff, take, if◌then◌else◌,
}
use tabssh_harmonyos.Prelude.Int.{ℤ, pos, negsuc, pos_part, ltb_ℤ, eqb_ℤ}
use tabssh_harmonyos.Json.Result.{NativeResult}
use tabssh_harmonyos.Ssh.Calls.{Call, Reply, Env, Log, Io, ◌>>◌, ask, loop}
use tabssh_harmonyos.Ssh.Effects.{After, After-bind, After-if, After-pure, After-rounds, InTurn}
use tabssh_harmonyos.Ssh.Effects.Held.{wait_socket-Held}
use tabssh_harmonyos.Ssh.Effects.Runs.{
  After-ask, After-test, After-Held, After-weaken, is_again-pos_part,
}
use tabssh_harmonyos.Ssh.Sftp.Download.{
  receive_reply, receive_round, finish_download, download_file,
}
use tabssh_harmonyos.Ssh.Sftp.Traffic.{
  Traffic, holds, move, traffic, traffic-IgnoresWaits, EndsClosed, close_sftp_handle-ends, Fails,
  still-Fails, sftp_failure-Fails,
}
use tabssh_harmonyos.Ssh.Sftp.Upload.{Transfer}
use tabssh_harmonyos.Ssh.Sftp.Upload.Chunk.{wrapped}
use tabssh_harmonyos.Ssh.State.{SessionState}
use tabssh_harmonyos.Ssh.Sftp.Download.Saved
use tabssh_harmonyos.Ssh.Sftp.Download.Saved.{
  SftpReadFills, kept, removed, failed-Downloaded, discard-Downloaded, leave-After, save-After,
}

-- A read of nothing ends the file.
not_positive : (v : ℤ) → ltb_ℤ v (pos 0) ≡ false → eqb_ℤ v (pos 0) ≡ true → pos_part v ≡ 0
not_positive v h k = ground arith

negative : (v : ℤ) → ltb_ℤ v (pos 0) ≡ true → pos_part v ≡ 0
negative (pos n) h = absurd (ground arith)
negative (negsuc n) h = refl

received :
    (h v : ℕ) (bytes : Bytes) (t : Traffic)
    → (if holds h (some h)
        then record t { from_remote = t.from_remote ++ take v bytes; handle = some h }
        else record t { handle = some h })
      ≡ record t { from_remote = t.from_remote ++ take v bytes; handle = some h }
received h v bytes t = rw ((==_iff h h).1 refl) refl

module _ (env : Env) (fills : SftpReadFills env) (s : SessionState) (remote output : ℕ)
    (local : Bytes) (b : Traffic) where
  abbrev Received : Bytes → Log → Type 0
  Received = Saved.Received env fills s remote output local b

  abbrev Downloaded : NativeResult → Log → Type 0
  Downloaded = Saved.Downloaded env fills s remote output local b

  abbrev Receiving : Transfer → Log → Type 0
  Receiving = Saved.Receiving env fills s remote output local b

  abbrev Outcome : NativeResult ⊎ Transfer → Log → Type 0
  Outcome = Saved.Outcome env fills s remote output local b

  -- Once the bytes of a read are handed out and not yet saved.
  abbrev HandedOut : Bytes → Bytes → Log → Type 0
  HandedOut got text log = traffic env log ≡ record b {
    from_remote = b.from_remote ++ (got ++ text);
    to_file = b.to_file ++ got;
    handle = some remote;
    created = some local;
  }

  HandedOut-nothing :
      (got : Bytes) (r : Reply) (log : Log)
      → pos_part r.value ≡ 0
      → HandedOut got (take (pos_part r.value) r.bytes) log
      → Received got log
  HandedOut-nothing got r log none_read e =
      subst (λ text. HandedOut got text log) (nothing r.bytes (pos_part r.value) none_read) e
      ∙ ap
          (λ text. record b {
            from_remote = b.from_remote ++ text;
            to_file = b.to_file ++ got;
            handle = some remote;
            created = some local;
          })
          (append-nil got)
    where
      nothing : (bytes : Bytes) (v : ℕ) → v ≡ 0 → take v bytes ≡ []
      nothing bytes v h = rw h refl

  receive_reply-After :
      (got : Bytes) (t : Transfer) (r : Reply) (blocked : Bool) (log : Log)
      → (blocked ≡ true → pos_part r.value ≡ 0)
      → pos_part r.value ≤ length r.bytes
      → t.total ≡ wrapped got
      → HandedOut got (take (pos_part r.value) r.bytes) log
      → After (InTurn Receiving Outcome) (receive_reply s remote output local t r blocked env log)
  unfolding receive_reply
  receive_reply-After got t r blocked log again_none le total e =
      let Q = InTurn Receiving Outcome in
      let give_up = leave-After env fills s remote output local b in
      let discarded = discard-Downloaded env fills s remote output local b in
      After-if Q blocked _ _ env log
        (λ h.
          After-Held Q env log traffic _ _ _
            (wait_socket-Held traffic traffic-IgnoresWaits _ _ t.deadline)
            (HandedOut-nothing got r log (again_none h) e)
            (λ ready l e'.
              After-if Q ready _ _ env l (λ _. After-pure Q _ env l (got, e', total))
                (λ _. give_up _ l (discarded got _ l e' (still-Fails env _ _)))))
        (λ _.
          After-if Q (ltb_ℤ r.value (pos 0)) _ _ env log
            (λ h. give_up _ log (
              discarded got _ log (HandedOut-nothing got r log (negative r.value h) e)
                (sftp_failure-Fails env s _ _)))
            (λ p.
              After-if Q (eqb_ℤ r.value (pos 0)) _ _ env log
                (λ h.
                  After-pure Q _ env log
                    (got, HandedOut-nothing got r log (not_positive r.value p h) e, total))
                (λ _. save-After env fills s remote output local b got t r log le total e)))

  receive_round-After :
      (t : Transfer) (log : Log)
      → Receiving t log
      → After (InTurn Receiving Outcome) (receive_round s remote output local t env log)
  unfolding receive_round
  receive_round-After t log (got, e, total) =
      let Q = InTurn Receiving Outcome in
      let call = Call.sftp_read remote 32768 in
      let r = env.answer log call in
      After-ask Q env log call _ (
        After-test Q env (call ∷ log) r _ (
          receive_reply-After got t r _ (call ∷ log) (is_again-pos_part env _)
            (fills log remote 32768) total
            (ap (move call r) e
              ∙ received remote (pos_part r.value) r.bytes (record b {
                from_remote = b.from_remote ++ got;
                to_file = b.to_file ++ got;
                created = some local;
              })
              ∙ ap
                  (λ text. record b {
                    from_remote = text;
                    to_file = b.to_file ++ got;
                    handle = some remote;
                    created = some local;
                  })
                  (append_assoc b.from_remote got (take (pos_part r.value) r.bytes)))))

  -- What has been received is in the local file, and the handle is closed.
  abbrev Closed : Bytes → Log → Type 0
  Closed got log = traffic env log ≡ record b {
    from_remote = b.from_remote ++ got;
    to_file = b.to_file ++ got;
    handle = none;
    created = some local;
  }

  remove-Downloaded :
      (got : Bytes) (m : Io NativeResult) (log : Log)
      → Closed got log
      → Fails env m
      → After Downloaded ((ask (Call.file_remove local) >> m) env log)
  remove-Downloaded got m log e fails =
      let remove = Call.file_remove local in
      After-ask Downloaded env log remove _ (
        After-weaken (λ r l. (r.ok ≡ false) × (traffic env l ≡ traffic env (remove ∷ log)))
          Downloaded _
          (λ r l f. failed-Downloaded env fills s remote output local b got r l f.0 (
            f.1
            ∙ ap (move remove (env.answer log remove)) e
            ∙ removed local (record b {
              from_remote = b.from_remote ++ got;
              to_file = b.to_file ++ got;
              handle = none;
            })))
          (fails (remove ∷ log)))

  finish_download-After :
      (o : NativeResult ⊎ Transfer) (log : Log)
      → Outcome o log
      → After Downloaded (finish_download s remote output local o env log)
  unfolding finish_download
  finish_download-After (inl r) log h = After-pure Downloaded r env log h
  finish_download-After (inr t) log (got, e, total) =
      let flush = Call.file_flush output in
      let good = Call.file_good output in
      let close = Call.file_close output in
      let l = good ∷ flush ∷ log in
      After-ask Downloaded env log flush _ (
        After-ask Downloaded env (flush ∷ log) good _ (
          After-if Downloaded (eqb_ℤ (env.answer (flush ∷ log) good).value (pos 0)) _ _ env l
            (λ _.
              discard-Downloaded env fills s remote output local b got _ l e (still-Fails env _ _))
            (λ _. After-ask Downloaded env l close _ (
              After-bind (λ c l'. Closed got l' × (c ≡ true → EndsClosed env remote l')) Downloaded
                _ _ env (close ∷ l)
                (close_sftp_handle-ends env s remote (close ∷ l)
                  (record b {
                    from_remote = b.from_remote ++ got;
                    to_file = b.to_file ++ got;
                    created = some local;
                  })
                  e)
                (λ closed l' (e', ends).
                  After-if Downloaded (not closed) _ _ env l'
                    (λ _. remove-Downloaded got _ l' e' (sftp_failure-Fails env s _ _))
                    (λ h.
                      After-pure Downloaded _ env l'
                        (got, e', λ _. (ap decimal total, ends (ground arith)))))))))

  pub download_file-After :
      (deadline : ℕ) (log : Log)
      → traffic env log ≡ record b { handle = some remote; created = some local }
      → After Downloaded (download_file s deadline remote local output env log)
  unfolding download_file loop
  download_file-After deadline log e =
      After-bind Outcome Downloaded _ _ env log
        (After-rounds Receiving Outcome _ env receive_round-After env.fuel _ log (
          [],
          e
              ∙ sym (
                  ap
                    (λ text. record b {
                      from_remote = text;
                      to_file = b.to_file ++ [];
                      handle = some remote;
                      created = some local;
                    })
                    (append-nil b.from_remote)
                  ∙ ap
                      (λ text. record b {
                        to_file = text;
                        handle = some remote;
                        created = some local;
                      })
                      (append-nil b.to_file)),
          refl,
        ))
        finish_download-After
