-- ===== src/Ssh/Sftp/Upload/Chunk.antt =====
-- A chunk of an upload in entry/src/main/cpp/native_ssh_libssh2.cpp.
use mathlib.Core.Path.{subst}
use tabssh_harmonyos.Prelude.{
  ℕ, ◌+◌, ◌%◌, ◌^◌, ◌≤◌, ◌≡◌, refl, sym, ap, ◌∙◌, Bool, true, false, not, ◌⊎◌, inl, inr, [], ◌∷◌,
  ◌++◌, none, some, Bytes, append_assoc, append-nil, arith, decimal, drop, length, length-append,
  length-drop, length-take, ltb, ==_iff, take, take-add, take_all, take-append-drop, if◌then◌else◌,
}
use tabssh_harmonyos.Prelude.Int.{ℤ, pos, negsuc, pos_part, ltb_ℤ}
use tabssh_harmonyos.Json.Result.{NativeResult}
use tabssh_harmonyos.Ssh.Calls.{Call, Reply, Env, Log, Io, pure, ◌>>=◌, done, loop}
use tabssh_harmonyos.Ssh.Effects.{After, After-bind, After-if, After-pure, After-rounds, InTurn}
use tabssh_harmonyos.Ssh.Effects.Held.{deadline_after-Held, wait_socket-Held}
use tabssh_harmonyos.Ssh.Effects.Runs.{After-ask, After-test, After-Held, is_again-pos_part}
use tabssh_harmonyos.Ssh.Sftp.Traffic.{
  EndsClosed, Traffic, holds, move, traffic, traffic-IgnoresWaits, Fails, still-Fails,
  sftp_failure-Fails, give_up_handle-closes,
}
use tabssh_harmonyos.Ssh.Sftp.Upload.{
  Transfer, Sending, give_up_handle, send_reply, send_round, send_chunk,
}
use tabssh_harmonyos.Ssh.State.{SessionState}

-- libssh2_sftp_write takes at most what it is offered.
abbrev pub SftpTakesOffered : Env → Type 0
SftpTakesOffered env =
    (log : Log) (handle : ℕ) (text : Bytes)
    → pos_part (env.answer log (Call.sftp_write handle text)).value ≤ length text

-- The total is a uint64_t.
abbrev pub wrapped : Bytes → ℕ
wrapped text = length text % 2 ^ 64

not_positive : (v : ℤ) → not (ltb_ℤ (pos 0) v) ≡ true → pos_part v ≡ 0
not_positive (pos n) h = ground arith
not_positive (negsuc n) h = refl

written :
    (h v : ℕ) (text : Bytes) (t : Traffic)
    → (if holds h (some h)
        then record t { to_remote = t.to_remote ++ take v text; handle = some h }
        else record t { handle = some h })
      ≡ record t { to_remote = t.to_remote ++ take v text; handle = some h }
written h v text t = rw ((==_iff h h).1 refl) refl

module _ (env : Env) (offered : SftpTakesOffered env) (s : SessionState) (remote : ℕ)
    (b : Traffic) where
  -- So much has been read from the local file and taken by the remote one, which is open.
  abbrev pub Sent : Bytes → Bytes → Log → Type 0
  Sent read taken log = traffic env log ≡ record b {
    from_file = b.from_file ++ read;
    to_remote = b.to_remote ++ taken;
    handle = some remote;
  }

  -- The handle has been given to libssh2_sftp_close_handle; what the remote file has taken is the first part of what has been read, and
  -- all of it after a success, which reports its length.
  abbrev pub Uploaded : NativeResult → Log → Type 0
  Uploaded r log =
      (taken : Bytes) × (rest : Bytes) × (traffic env log ≡ record b {
        from_file = b.from_file ++ (taken ++ rest);
        to_remote = b.to_remote ++ taken;
        handle = none;
      })
      × (r.ok ≡ true
          → (rest ≡ []) × (r.payload ≡ decimal (wrapped taken)) × EndsClosed env remote log)

  abbrev pub SentAll : Transfer → Log → Type 0
  SentAll t log = (read : Bytes) × Sent read read log × (t.total ≡ wrapped read)

  abbrev pub Outcome : NativeResult ⊎ Transfer → Log → Type 0
  Outcome (inl r) log = Uploaded r log
  Outcome (inr t) log = SentAll t log

  abbrev InChunk : Bytes → Bytes → Sending → Log → Type 0
  InChunk read chunk sending log =
      Sent (read ++ chunk) (read ++ take sending.offset chunk) log
      × (sending.offset ≤ length chunk)
      × (sending.transfer.total ≡ wrapped (read ++ take sending.offset chunk))

  failed-Uploaded :
      (read chunk : Bytes) (n : ℕ) (r : NativeResult) (log : Log)
      → r.ok ≡ false
      → traffic env log ≡ record b {
        from_file = b.from_file ++ (read ++ chunk);
        to_remote = b.to_remote ++ (read ++ take n chunk);
        handle = none;
      }
      → Uploaded r log
  failed-Uploaded read chunk n r log bad e = (
    read ++ take n chunk,
    drop n chunk,
    e
        ∙ ap
            (λ text. record b {
              from_file = b.from_file ++ text;
              to_remote = b.to_remote ++ (read ++ take n chunk);
              handle = none;
            })
            (sym (
              append_assoc read (take n chunk) (drop n chunk)
              ∙ ap (◌++◌ read) (take-append-drop n chunk))),
    λ q. absurd (cc),
  )

  -- A failure inside a chunk.
  give_up-After :
      (read chunk : Bytes) (sending : Sending) (m : Io NativeResult) (log : Log)
      → InChunk read chunk sending log
      → Fails env m
      → After
          (InTurn (InChunk read chunk) Outcome)
          ((give_up_handle s remote m >>= λ r. pure (done (inl r))) env log)
  give_up-After read chunk sending m log i fails =
      let t : Traffic = record b {
        from_file = b.from_file ++ (read ++ chunk);
        to_remote = b.to_remote ++ (read ++ take sending.offset chunk);
      } in
      After-bind (λ r l. (r.ok ≡ false) × (traffic env l ≡ record t { handle = none }))
        (InTurn (InChunk read chunk) Outcome) _ _ env log
        (give_up_handle-closes env log s remote t m fails i.0)
        (λ r l f.
          After-pure (InTurn (InChunk read chunk) Outcome) _ env l
            (failed-Uploaded read chunk sending.offset r l f.0 f.1))

  InChunk-write :
      (read chunk : Bytes) (sending : Sending) (log : Log)
      → InChunk read chunk sending log
      → let call = Call.sftp_write remote (drop sending.offset chunk) in
        let v = pos_part (env.answer log call).value in
        Sent (read ++ chunk) (read ++ take (sending.offset + v) chunk) (call ∷ log)
        × (sending.offset + v ≤ length chunk)
  InChunk-write read chunk sending log i =
      let n = sending.offset in
      let call = Call.sftp_write remote (drop n chunk) in
      let v = pos_part (env.answer log call).value in
      (
        ap (move call (env.answer log call)) i.0
            ∙ written remote v (drop n chunk) (record b {
              from_file = b.from_file ++ (read ++ chunk);
              to_remote = b.to_remote ++ (read ++ take n chunk);
            })
            ∙ ap
                (λ text. record b {
                  from_file = b.from_file ++ (read ++ chunk);
                  to_remote = text;
                  handle = some remote;
                })
                (append_assoc b.to_remote (read ++ take n chunk) (take v (drop n chunk))
                  ∙ ap (◌++◌ b.to_remote) (
                      append_assoc read (take n chunk) (take v (drop n chunk))
                      ∙ ap (◌++◌ read) (sym (take-add n v chunk)))),
        omega (arith, i.1, offered log remote (drop n chunk), length-drop n chunk),
      )

  wrapped-write :
      (read chunk : Bytes) (n v t : ℕ)
      → n + v ≤ length chunk
      → t ≡ wrapped (read ++ take n chunk)
      → (t + v) % 2 ^ 64 ≡ wrapped (read ++ take (n + v) chunk)
  wrapped-write read chunk n v t le e = omega (
    arith,
    e,
    length-append read (take n chunk),
    length-append read (take (n + v) chunk),
    length-take n chunk,
    length-take (n + v) chunk,
  )

  unmoved :
      (read chunk : Bytes) (log : Log) {n k : ℕ}
      → n ≡ k
      → Sent (read ++ chunk) (read ++ take n chunk) log
      → Sent (read ++ chunk) (read ++ take k chunk) log
  unmoved read chunk log same e =
      subst (λ n. Sent (read ++ chunk) (read ++ take n chunk) log) same e

  send_reply-After :
      (read chunk : Bytes) (sending : Sending) (log : Log) (r : Reply) (blocked : Bool)
      → (blocked ≡ true → pos_part r.value ≡ 0)
      → Sent (read ++ chunk) (read ++ take (sending.offset + pos_part r.value) chunk) log
      → sending.offset + pos_part r.value ≤ length chunk
      → sending.transfer.total ≡ wrapped (read ++ take sending.offset chunk)
      → After (InTurn (InChunk read chunk) Outcome) (send_reply s remote sending r blocked env log)
  unfolding send_reply
  send_reply-After read chunk sending log r blocked none_taken e le total =
      let Q = InTurn (InChunk read chunk) Outcome in
      After-if Q blocked _ _ env log
        (λ h.
          let same : sending.offset + pos_part r.value ≡ sending.offset =
            omega (arith, none_taken h) in
          After-Held Q env log traffic _ _ _
            (wait_socket-Held traffic traffic-IgnoresWaits _ _ sending.transfer.deadline)
            (unmoved read chunk log same e)
            (λ ready l e'.
              After-if Q ready _ _ env l (λ _. After-pure Q _ env l (e', omega (arith, le), total))
                (λ _.
                  give_up-After read chunk sending _ l (e', omega (arith, le), total)
                    (still-Fails env _ _))))
        (λ _.
          After-if Q (not (ltb_ℤ (pos 0) r.value)) _ _ env log
            (λ h.
              let same : sending.offset + pos_part r.value ≡ sending.offset =
                omega (arith, not_positive r.value h) in
              give_up-After read chunk sending _ log
                (unmoved read chunk log same e, omega (arith, le), total)
                (sftp_failure-Fails env s _ _))
            (λ _.
              After-Held Q env log traffic _ _ _
                (deadline_after-Held traffic traffic-IgnoresWaits _) e
                (λ deadline l e'.
                  After-pure Q _ env l (
                    e',
                    le,
                    wrapped-write read chunk sending.offset (pos_part r.value) _ le total,
                  ))))

  send_round-After :
      (read chunk : Bytes) (sending : Sending) (log : Log)
      → InChunk read chunk sending log
      → After (InTurn (InChunk read chunk) Outcome) (send_round s remote chunk sending env log)
  unfolding send_round
  send_round-After read chunk sending log i =
      let Q = InTurn (InChunk read chunk) Outcome in
      After-if Q (not (ltb sending.offset (length chunk))) _ _ env log
        (λ h.
          let all : take sending.offset chunk ≡ chunk =
            take_all sending.offset chunk (ground arith) in
          After-pure Q _ env log (
            read ++ chunk,
            subst (λ text. Sent (read ++ chunk) (read ++ text) log) all i.0,
            subst (λ text. sending.transfer.total ≡ wrapped (read ++ text)) all i.2,
          ))
        (λ h.
          let call = Call.sftp_write remote (drop sending.offset chunk) in
          let w = InChunk-write read chunk sending log i in
          After-ask Q env log call _ (
            After-test Q env (call ∷ log) (env.answer log call) _ (
              send_reply-After read chunk sending (call ∷ log) (env.answer log call) _
                (is_again-pos_part env _) w.0 w.1 i.2)))

  pub send_chunk-After :
      (read chunk : Bytes) (t : Transfer) (log : Log)
      → Sent (read ++ chunk) read log
      → t.total ≡ wrapped read
      → After Outcome (send_chunk s remote chunk t env log)
  unfolding send_chunk loop
  send_chunk-After read chunk t log e total =
      After-rounds (InChunk read chunk) Outcome _ env (send_round-After read chunk) env.fuel _ log (
        subst (λ text. Sent (read ++ chunk) text log) (sym (append-nil read)) e,
        omega arith,
        subst (λ text. t.total ≡ wrapped text) (sym (append-nil read)) total,
      )
