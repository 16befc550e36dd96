-- ===== src/Ssh/Terminal/Written.antt =====
-- What `Write` of entry/src/main/cpp/native_ssh_libssh2.cpp hands to the channel.
use tabssh_harmonyos.Prelude.{
  ℕ, ◌+◌, ◌≤◌, ◌≡◌, refl, sym, ap, ◌∙◌, Bool, true, false, [], ◌∷◌, ◌++◌, Option, none, some, Bytes,
  append_assoc, append-nil, arith, decimal, length, take, drop, take-add, take_all, length-drop,
  ltb, ◌==◌, ==_iff, if◌then◌else◌,
}
use tabssh_harmonyos.Prelude.Int.{pos, pos_part, ltb_ℤ}
use tabssh_harmonyos.Prelude.Map.{lookup}
use tabssh_harmonyos.Json.Result.{NativeResult}
use tabssh_harmonyos.Ssh.Calls.{Call, Reply, Env, Log, again, done, loop}
use tabssh_harmonyos.Ssh.Channel.{wait_for_channel}
use tabssh_harmonyos.Ssh.Effects.{After, After-if, After-pure, After-rounds, InTurn}
use tabssh_harmonyos.Ssh.Effects.Held.{
  View, seen, IgnoresWaits, deadline_after-Held, wait_socket-Held,
}
use tabssh_harmonyos.Ssh.Effects.Runs.{
  After-ask, After-test, After-Held, After-then, After-weaken, is_again-pos_part,
}
use tabssh_harmonyos.Ssh.State.{SessionState, ChannelState, Core, find_authenticated_session}
use tabssh_harmonyos.Ssh.Terminal.{write_reply, write_round, write_on, write_found, write}
use tabssh_harmonyos.Ssh.Trust.Globals.{After-eq}

-- libssh2_channel_write_ex takes at most what it is offered.
abbrev pub TakesOffered : Env → Type 0
TakesOffered env =
    (log : Log) (channel : ℕ) (text : Bytes)
    → pos_part (env.answer log (Call.channel_write channel text)).value ≤ length text

abbrev taken : ℕ → Call → Reply → Bytes → Bytes
taken channel (Call.channel_write c text) r out =
    if c == channel then out ++ take (pos_part r.value) text else out
taken channel _ r out = out

-- The bytes that libssh2 has taken for a channel, in order.
abbrev pub delivered : ℕ → View Bytes
delivered channel = seen (taken channel) []

delivered-IgnoresWaits : (channel : ℕ) → IgnoresWaits (delivered channel)
delivered-IgnoresWaits channel = record {
  clock = λ env log. refl;
  directions = λ s env log. refl;
  polling = λ fd i o t env log. refl;
  error = λ s env log. refl;
  errno = λ s env log. refl;
}

module _ (env : Env) (offered : TakesOffered env) (channel : ℕ) (text before : Bytes) where
  -- After some bytes of the text.
  abbrev Written : ℕ → Log → Type 0
  Written n log = (delivered channel env log ≡ before ++ take n text) × (n ≤ length text)

  abbrev WrittenAll : NativeResult → Log → Type 0
  WrittenAll r log =
      r.ok ≡ true
      → (delivered channel env log ≡ before ++ text) × (r.payload ≡ decimal (length text))

  delivered-write :
      (n : ℕ) (log : Log)
      → Written n log
      → let call = Call.channel_write channel (drop n text) in
        Written (n + pos_part (env.answer log call).value) (call ∷ log)
  delivered-write n log (e, le) =
      let v = pos_part (env.answer log (Call.channel_write channel (drop n text))).value in
      let self = (==_iff channel channel).1 refl in
      (
        rw self (
            ap (λ out. out ++ take v (drop n text)) e
            ∙ append_assoc before (take n text) (take v (drop n text))
            ∙ ap (◌++◌ before) (sym (take-add n v text))),
        omega (arith, offered log channel (drop n text), length-drop n text),
      )

  after_wait :
      (n : ℕ) (ready : Bool) (r : NativeResult) (log : Log)
      → r.ok ≡ false
      → Written n log
      → InTurn Written WrittenAll (if ready then again n else done r) log
  after_wait n true r log bad w = w
  after_wait n false r log bad w = λ q. absurd (cc)

  write_reply-After :
      (s : SessionState) (deadline n : ℕ) (r : Reply) (blocked : Bool) (log : Log)
      → (blocked ≡ true → pos_part r.value ≡ 0)
      → Written (n + pos_part r.value) log
      → After
          (InTurn Written WrittenAll)
          (write_reply s (wait_for_channel s deadline) n r blocked env log)
  unfolding write_reply
  write_reply-After s deadline n r blocked log none_taken w =
      After-if (InTurn Written WrittenAll) blocked _ _ env log
        (λ b.
          let same : n + pos_part r.value ≡ n = omega (arith, none_taken b) in
          After-Held (InTurn Written WrittenAll) env log (delivered channel) _
            (wait_for_channel s deadline) _
            (wait_socket-Held (delivered channel) (delivered-IgnoresWaits channel) _ _ deadline) w.0
            (λ ready log' e. After-pure (InTurn Written WrittenAll) _ env log' (
              after_wait n ready _ log' refl
                (e ∙ ap (λ k. before ++ take k text) same, omega (arith, w.1)))))
        (λ _.
          After-if (InTurn Written WrittenAll) (ltb_ℤ r.value (pos 0)) _ _ env log
            (λ _.
              After-then (InTurn Written WrittenAll) _ _ env log
                (λ m log'. After-pure (InTurn Written WrittenAll) _ env log' (λ q. absurd (cc))))
            (λ _. After-pure (InTurn Written WrittenAll) _ env log w))

  write_round-After :
      (s : SessionState) (deadline n : ℕ) (log : Log)
      → Written n log
      → After
          (InTurn Written WrittenAll)
          (write_round s (wait_for_channel s deadline) channel text n env log)
  unfolding write_round
  write_round-After s deadline n log w =
      After-if (InTurn Written WrittenAll) (ltb n (length text)) _ _ env log
        (λ _.
          let call = Call.channel_write channel (drop n text) in
          After-ask (InTurn Written WrittenAll) env log call _ (
            After-test (InTurn Written WrittenAll) env (call ∷ log) (env.answer log call) _ (
              write_reply-After s deadline n (env.answer log call) _ (call ∷ log)
                (is_again-pos_part env _) (delivered-write n log w))))
        (λ all.
          let whole : length text ≤ n = ground arith in
          After-pure (InTurn Written WrittenAll) _ env log (λ _.
            (w.0 ∙ ap (◌++◌ before) (take_all n text whole), ap decimal (omega (arith, w.1)))))

-- A success means that the whole text has been delivered.
abbrev DeliversAll : Env → Bytes → Log → Option ChannelState → NativeResult → Log → Type 0
DeliversAll env text before o r after =
    r.ok ≡ true
    → (c : ChannelState) × (o ≡ some c)
      × (delivered c.channel env after ≡ delivered c.channel env before ++ text)
      × (r.payload ≡ decimal (length text))

module _ (env : Env) (offered : TakesOffered env) (text : Bytes) where
  write_on-After :
      (c : ChannelState) (o : Option SessionState) (log : Log)
      → After
          (WrittenAll env offered c.channel text (delivered c.channel env log))
          (write_on c text o env log)
  unfolding write_on loop
  write_on-After c none log = After-pure _ _ env log (λ q. absurd (cc))
  write_on-After c (some s) log =
      let view = delivered c.channel in
      let before = view env log in
      After-Held (WrittenAll env offered c.channel text before) env log view before _ _
        (deadline_after-Held view (delivered-IgnoresWaits c.channel) _) refl
        λ deadline log' e.
          After-rounds (Written env offered c.channel text before)
            (WrittenAll env offered c.channel text before)
            (write_round s (wait_for_channel s deadline) c.channel text) env
            (write_round-After env offered c.channel text before s deadline) env.fuel 0 log'
            (e ∙ sym (append-nil before), omega arith)

  write_found-After :
      (core : Core) (o : Option ChannelState) (log : Log)
      → After (DeliversAll env text log o) (write_found text core o env log)
  unfolding write_found
  write_found-After core none log = After-pure _ _ env log (λ q. absurd (cc))
  write_found-After core (some c) log =
      After-weaken (WrittenAll env offered c.channel text (delivered c.channel env log))
        (DeliversAll env text log (some c)) _ (λ r log' h q. (c, refl, (h q).0, (h q).1))
        (write_on-After c (find_authenticated_session core c.session_id) log)

-- Whatever the network answers, when `Write` reports success libssh2 has taken the whole text for the
-- channel, in order, behind what it had taken before, and the number reported is the length of the
-- text; if no call of libssh2_channel_write_ex takes more than it is offered.
pub write-delivered :
    (env : Env) (id text : Bytes) (core : Core) (log : Log) {result : NativeResult} {log' : Log}
    → TakesOffered env
    → write id text core env log ≡ some (result, log')
    → result.ok ≡ true
    → (c : ChannelState) × (lookup id core.channels ≡ some c)
      × (delivered c.channel env log' ≡ delivered c.channel env log ++ text)
      × (result.payload ≡ decimal (length text))
unfolding write
write-delivered env id text core log offered e ok =
    After-eq (DeliversAll env text log (lookup id core.channels)) _ _ _
      (write_found-After env offered text core (lookup id core.channels) log) e ok
