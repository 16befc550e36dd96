-- ===== src/Ssh/Sftp/Download/Saved.antt =====
-- What a download of entry/src/main/cpp/native_ssh_libssh2.cpp saves, and how it gives up.
use tabssh_harmonyos.Prelude.{
  ℕ, ◌+◌, ◌%◌, ◌^◌, ◌≤◌, ◌≡◌, refl, sym, ap, ◌∙◌, Bool, true, false, ◌⊎◌, inl, inr, ◌∷◌, ◌++◌,
  Option, none, some, Bytes, append_assoc, arith, decimal, equal_refl, length, length-append,
  length-take, take, if◌then◌else◌,
}
use tabssh_harmonyos.Prelude.Int.{pos, pos_part, eqb_ℤ}
use tabssh_harmonyos.Json.Result.{NativeResult}
use tabssh_harmonyos.Ssh.Calls.{Call, Reply, Env, Log, Io, pure, ◌>>=◌, done}
use tabssh_harmonyos.Ssh.Effects.{After, After-bind, After-if, After-pure, InTurn}
use tabssh_harmonyos.Ssh.Effects.Held.{deadline_after-Held}
use tabssh_harmonyos.Ssh.Effects.Runs.{After-ask, After-Held, After-weaken}
use tabssh_harmonyos.Ssh.Sftp.Download.{discard, save}
use tabssh_harmonyos.Ssh.Sftp.Traffic.{
  EndsClosed, Traffic, without_file, move, traffic, traffic-IgnoresWaits, close_sftp_handle-closes,
  Fails, still-Fails,
}
use tabssh_harmonyos.Ssh.Sftp.Upload.{Transfer}
use tabssh_harmonyos.Ssh.Sftp.Upload.Chunk.{wrapped}
use tabssh_harmonyos.Ssh.State.{SessionState}

-- libssh2_sftp_read hands out as many bytes as it reports.
abbrev pub SftpReadFills : Env → Type 0
SftpReadFills env =
    (log : Log) (handle size : ℕ)
    → pos_part (env.answer log (Call.sftp_read handle size)).value
      ≤ length (env.answer log (Call.sftp_read handle size)).bytes

abbrev pub kept : Bool → Bytes → Option Bytes
kept ok path = if ok then some path else none

pub removed :
    (path : Bytes) (t : Traffic)
    → record t { created = without_file path (some path) } ≡ record t { created = none }
removed path t = rw (equal_refl path) refl

module _ (env : Env) (fills : SftpReadFills env) (s : SessionState) (remote output : ℕ)
    (local : Bytes) (b : Traffic) where
  abbrev pub Received : Bytes → Log → Type 0
  Received got log = traffic env log ≡ record b {
    from_remote = b.from_remote ++ got;
    to_file = b.to_file ++ got;
    handle = some remote;
    created = some local;
  }

  -- The handle has been given to libssh2_sftp_close_handle; what has been read has been handed to the
  -- local file, whose removal is asked for after a failure. A success reports the length and ends with a
  -- call of libssh2_sftp_close_handle that is answered 0.
  abbrev pub Downloaded : NativeResult → Log → Type 0
  Downloaded r log =
      (got : Bytes) × (traffic env log ≡ record b {
        from_remote = b.from_remote ++ got;
        to_file = b.to_file ++ got;
        handle = none;
        created = kept r.ok local;
      })
      × (r.ok ≡ true → (r.payload ≡ decimal (wrapped got)) × EndsClosed env remote log)

  abbrev pub Receiving : Transfer → Log → Type 0
  Receiving t log = (got : Bytes) × Received got log × (t.total ≡ wrapped got)

  abbrev pub Outcome : NativeResult ⊎ Transfer → Log → Type 0
  Outcome (inl r) log = Downloaded r log
  Outcome (inr t) log = Receiving t log

  pub failed-Downloaded :
      (got : Bytes) (r : NativeResult) (log : Log)
      → r.ok ≡ false
      → traffic env log ≡ record b {
        from_remote = b.from_remote ++ got;
        to_file = b.to_file ++ got;
        handle = none;
        created = none;
      }
      → Downloaded r log
  failed-Downloaded got r log bad e = (
    got,
    e
        ∙ ap
            (λ ok. record b {
              from_remote = b.from_remote ++ got;
              to_file = b.to_file ++ got;
              handle = none;
              created = kept ok local;
            })
            (sym bad),
    λ q. absurd (cc),
  )

  pub discard-Downloaded :
      (got : Bytes) (m : Io NativeResult) (log : Log)
      → Received got log
      → Fails env m
      → After Downloaded (discard s remote output local m env log)
  unfolding discard
  discard-Downloaded got m log e fails =
      let t : Traffic = record b {
        from_remote = b.from_remote ++ got;
        to_file = b.to_file ++ got;
        created = some local;
      } in
      After-bind (λ _ l. traffic env l ≡ record t { handle = none }) Downloaded _ _ env log
        (close_sftp_handle-closes env log s remote t e)
        λ closed l e'.
          let close = Call.file_close output in
          let remove = Call.file_remove local in
          After-ask Downloaded env l close _ (
            After-ask Downloaded env (close ∷ l) remove _ (
              After-weaken
                (λ r l'. (r.ok ≡ false) × (traffic env l' ≡ traffic env (remove ∷ close ∷ l)))
                Downloaded _
                (λ r l' f. failed-Downloaded got r l' f.0 (
                  f.1
                  ∙ ap (move remove (env.answer (close ∷ l) remove)) e'
                  ∙ removed local (record t { handle = none })))
                (fails (remove ∷ close ∷ l))))

  pub leave-After :
      (m : Io NativeResult) (log : Log)
      → After Downloaded (m env log)
      → After (InTurn Receiving Outcome) ((m >>= λ r. pure (done (inl r))) env log)
  leave-After m log h =
      After-bind Downloaded (InTurn Receiving Outcome) m _ env log h
        (λ r l f. After-pure (InTurn Receiving Outcome) _ env l f)

  -- What has been received, once the bytes of a read have been written.
  Received-write :
      (got : Bytes) (r : Reply) (v : ℕ) (log : Log)
      → let write = Call.file_write output (take v r.bytes) in
        traffic env log ≡ record b {
          from_remote = b.from_remote ++ (got ++ take v r.bytes);
          to_file = b.to_file ++ got;
          handle = some remote;
          created = some local;
        }
        → Received (got ++ take v r.bytes) (write ∷ log)
  Received-write got r v log e =
      let write = Call.file_write output (take v r.bytes) in
      ap (move write (env.answer log write)) e
      ∙ ap
          (λ text. record b {
            from_remote = b.from_remote ++ (got ++ take v r.bytes);
            to_file = text;
            handle = some remote;
            created = some local;
          })
          (append_assoc b.to_file got (take v r.bytes))

  wrapped-read :
      (got bytes : Bytes) (v t : ℕ)
      → v ≤ length bytes
      → t ≡ wrapped got
      → (t + v) % 2 ^ 64 ≡ wrapped (got ++ take v bytes)
  wrapped-read got bytes v t le e =
      omega (arith, e, length-append got (take v bytes), length-take v bytes)

  pub save-After :
      (got : Bytes) (t : Transfer) (r : Reply) (log : Log)
      → pos_part r.value ≤ length r.bytes
      → t.total ≡ wrapped got
      → traffic env log ≡ record b {
        from_remote = b.from_remote ++ (got ++ take (pos_part r.value) r.bytes);
        to_file = b.to_file ++ got;
        handle = some remote;
        created = some local;
      }
      → After (InTurn Receiving Outcome) (
          save s remote output local t (pos_part r.value) (take (pos_part r.value) r.bytes) env log)
  unfolding save
  save-After got t r log le total e =
      let Q = InTurn Receiving Outcome in
      let v = pos_part r.value in
      let text = take v r.bytes in
      let write = Call.file_write output text in
      let good = Call.file_good output in
      let l = good ∷ write ∷ log in
      let e' = Received-write got r v log e in
      After-ask Q env log write _ (
        After-ask Q env (write ∷ log) good _ (
          After-if Q (eqb_ℤ (env.answer (write ∷ log) good).value (pos 0)) _ _ env l
            (λ _. leave-After _ l (discard-Downloaded (got ++ text) _ l e' (still-Fails env _ _)))
            (λ _.
              After-Held Q env l traffic _ _ _ (deadline_after-Held traffic traffic-IgnoresWaits _)
                e'
                (λ deadline l' e''.
                  After-pure Q _ env l'
                    (got ++ text, e'', wrapped-read got r.bytes v _ le total)))))
