-- ===== src/Ssh/Sftp/Upload/Integrity.antt =====
-- What an upload of entry/src/main/cpp/native_ssh_libssh2.cpp leaves at the remote file.
use mathlib.Core.Path.{subst}
use tabssh_harmonyos.Prelude.{
  arith, ℕ, ◌≡◌, refl, sym, ap, ◌∙◌, true, false, not, ◌⊎◌, inl, inr, [], ◌∷◌, ◌++◌, none, some,
  Bytes, append_assoc, append-nil, codes, decimal, is_empty,
}
use tabssh_harmonyos.Prelude.Int.{pos, eqb_ℤ}
use tabssh_harmonyos.Json.Result.{NativeResult}
use tabssh_harmonyos.Profile.{success}
use tabssh_harmonyos.Ssh.Calls.{Call, Env, Log, loop}
use tabssh_harmonyos.Ssh.Effects.{After, After-bind, After-if, After-pure, After-rounds, InTurn}
use tabssh_harmonyos.Ssh.Effects.Runs.{After-ask, After-weaken}
use tabssh_harmonyos.Ssh.Sftp.Traffic.{
  Traffic, move, traffic, EndsClosed, close_sftp_handle-ends, still-Fails, sftp_failure-Fails,
  give_up_handle-closes,
}
use tabssh_harmonyos.Ssh.Sftp.Upload.{
  Transfer, next_chunk, upload_round, finish_upload, upload_file,
}
use tabssh_harmonyos.Ssh.State.{SessionState}
use tabssh_harmonyos.Ssh.Sftp.Upload.Chunk.{SftpTakesOffered, wrapped, send_chunk-After}
use tabssh_harmonyos.Ssh.Sftp.Upload.Chunk

empty_is : (text : Bytes) → is_empty text ≡ true → text ≡ []
empty_is [] h = refl
empty_is (c ∷ text) h = absurd (cc)

module _ (env : Env) (offered : SftpTakesOffered env) (s : SessionState) (remote : ℕ)
    (b : Traffic) where
  abbrev Sent : Bytes → Bytes → Log → Type 0
  Sent = Chunk.Sent env offered s remote b

  abbrev Uploaded : NativeResult → Log → Type 0
  Uploaded = Chunk.Uploaded env offered s remote b

  abbrev SentAll : Transfer → Log → Type 0
  SentAll = Chunk.SentAll env offered s remote b

  abbrev Outcome : NativeResult ⊎ Transfer → Log → Type 0
  Outcome = Chunk.Outcome env offered s remote b

  next_chunk-Outcome :
      (o : NativeResult ⊎ Transfer) (log : Log)
      → Outcome o log
      → InTurn SentAll Outcome (next_chunk o) log
  next_chunk-Outcome (inl r) log h = h
  next_chunk-Outcome (inr t) log h = h

  upload_round-After :
      (input : ℕ) (t : Transfer) (log : Log)
      → SentAll t log
      → After (InTurn SentAll Outcome) (upload_round s input remote t env log)
  unfolding upload_round
  upload_round-After input t log (read, e, total) =
      let Q = InTurn SentAll Outcome in
      let good = Call.file_good input in
      After-ask Q env log good _ (
        After-if Q (eqb_ℤ (env.answer log good).value (pos 0)) _ _ env (good ∷ log)
          (λ _. After-pure Q _ env (good ∷ log) (read, e, total))
          (λ _.
            let call = Call.file_read input 32768 in
            let r = env.answer (good ∷ log) call in
            let e' : Sent (read ++ r.bytes) read (call ∷ good ∷ log) =
              ap (move call r) e
              ∙ ap
                  (λ text. record b {
                    from_file = text;
                    to_remote = b.to_remote ++ read;
                    handle = some remote;
                  })
                  (append_assoc b.from_file read r.bytes) in
            After-ask Q env (good ∷ log) call _ (
              After-if Q (is_empty r.bytes) _ _ env (call ∷ good ∷ log)
                (λ h. After-pure Q _ env (call ∷ good ∷ log) (
                  read,
                  subst (λ text. Sent text read (call ∷ good ∷ log))
                      (ap (◌++◌ read) (empty_is r.bytes h) ∙ append-nil read) e',
                  total,
                ))
                (λ _.
                  After-bind Outcome Q _ _ env (call ∷ good ∷ log)
                    (send_chunk-After env offered s remote b read r.bytes t (call ∷ good ∷ log) e'
                      total)
                    (λ o l h. After-pure Q _ env l (next_chunk-Outcome o l h))))))

  -- All that has been read has been taken, and the handle is closed.
  abbrev Closed : Bytes → Log → Type 0
  Closed read log =
      traffic env log
      ≡ record b { from_file = b.from_file ++ read; to_remote = b.to_remote ++ read; handle = none }

  Closed-Uploaded :
      (read : Bytes) (r : NativeResult) (log : Log)
      → Closed read log
      → (r.ok ≡ true → (r.payload ≡ decimal (wrapped read)) × EndsClosed env remote log)
      → Uploaded r log
  Closed-Uploaded read r log e payload = (
    read,
    [],
    e
        ∙ ap
            (λ text. record b {
              from_file = b.from_file ++ text;
              to_remote = b.to_remote ++ read;
              handle = none;
            })
            (sym (append-nil read)),
    λ ok. (refl, (payload ok).0, (payload ok).1),
  )

  finish_upload-After :
      (input : ℕ) (o : NativeResult ⊎ Transfer) (log : Log)
      → Outcome o log
      → After Uploaded (finish_upload s input remote o env log)
  unfolding finish_upload
  finish_upload-After input (inl r) log h = After-pure Uploaded r env log h
  finish_upload-After input (inr t) log (read, e, total) =
      let bad = Call.file_bad input in
      let done_reading : Traffic = record b {
        from_file = b.from_file ++ read;
        to_remote = b.to_remote ++ read;
      } in
      After-ask Uploaded env log bad _ (
        After-if Uploaded (not (eqb_ℤ (env.answer log bad).value (pos 0))) _ _ env (bad ∷ log)
          (λ _.
            After-weaken (λ r l. (r.ok ≡ false) × Closed read l) Uploaded _
              (λ r l f. Closed-Uploaded read r l f.1 (λ q. absurd (cc)))
              (give_up_handle-closes env (bad ∷ log) s remote done_reading _ (still-Fails env _ _)
                e))
          (λ _.
            After-bind (λ c l. Closed read l × (c ≡ true → EndsClosed env remote l)) Uploaded _ _
              env (bad ∷ log) (close_sftp_handle-ends env s remote (bad ∷ log) done_reading e)
              (λ closed l (e', ends).
                After-if Uploaded (not closed) _ _ env l
                  (λ _.
                    After-weaken (λ r l'. (r.ok ≡ false) × (traffic env l' ≡ traffic env l))
                      Uploaded _ (λ r l' f. Closed-Uploaded read r l' (f.1 ∙ e') (λ q. absurd (cc)))
                      (sftp_failure-Fails env s _ _ l))
                  (λ h. After-pure Uploaded _ env l (
                    Closed-Uploaded read (success (codes "SFTP upload complete") (decimal t.total))
                      l e' (λ _. (ap decimal total, ends (ground arith))))))))

  pub upload_file-After :
      (input deadline : ℕ) (log : Log)
      → traffic env log ≡ record b { handle = some remote }
      → After Uploaded (upload_file s input deadline remote env log)
  unfolding upload_file loop
  upload_file-After input deadline log e =
      After-bind Outcome Uploaded _ _ env log
        (After-rounds SentAll Outcome _ env (upload_round-After input) env.fuel _ log (
          [],
          e
              ∙ sym (
                  ap
                    (λ text. record b {
                      from_file = text;
                      to_remote = b.to_remote ++ [];
                      handle = some remote;
                    })
                    (append-nil b.from_file)
                  ∙ ap (λ text. record b { to_remote = text; handle = some remote })
                      (append-nil b.to_remote)),
          refl,
        ))
        (λ o l h. finish_upload-After input o l h)
