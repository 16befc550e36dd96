-- ===== src/Ssh/Forward/Socks/Reading.antt =====
-- What `ReadSocketExact` and `WriteSocketExact` of entry/src/main/cpp/native_ssh_libssh2.cpp read.
use tabssh_harmonyos.Prelude.{
  ℕ, ◌+◌, ◌-◌, ◌≤◌, ◌≡◌, refl, sym, ap, ◌∙◌, Bool, true, false, not, ◌||◌, [], ◌∷◌, ◌++◌, Option,
  none, some, Bytes, append_assoc, append-nil, arith, length, length-append, length-take, ltb, take,
  ◌==◌, ==_iff, if◌then◌else◌,
}
use tabssh_harmonyos.Prelude.Int.{pos, pos_part, ltb_ℤ, eqb_ℤ}
use tabssh_harmonyos.Ssh.Calls.{Call, Reply, Env, Log, is_stopping, done, loop}
use tabssh_harmonyos.Ssh.Effects.{After, After-if, After-pure, After-rounds, InTurn}
use tabssh_harmonyos.Ssh.Effects.Held.{
  View, seen, Held, Held-ask, Held-bind, Held-if, Held-loop, Held-pure, IgnoresWaits,
  deadline_after-Held,
}
use tabssh_harmonyos.Ssh.Effects.Runs.{After-ask, After-Held, After-is_stopping}
use tabssh_harmonyos.Ssh.Forward.Relay.{is_transient}
use tabssh_harmonyos.Ssh.Forward.Relay.Balance.{not_positive}
use tabssh_harmonyos.Ssh.Forward.Socket.{
  Partial, wait_local_round, wait_local_socket, exact, or_give_up, read_reply, read_round,
  read_socket_exact, write_reply, write_round, write_socket_exact,
}
use tabssh_harmonyos.Ssh.Network.{remaining_milliseconds}

-- `recv` hands out as many bytes as it reports.
abbrev pub SocketReadFills : Env → Type 0
SocketReadFills env =
    (log : Log) (socket size : ℕ)
    → pos_part (env.answer log (Call.recv socket size)).value
      ≤ length (env.answer log (Call.recv socket size)).bytes

module _ (client : ℕ) where
  abbrev listen : Call → Reply → Bytes → Bytes
  listen (Call.recv fd n) r out =
      if fd == client then out ++ take (pos_part r.value) r.bytes else out
  listen _ r out = out

  -- The bytes received from a client, in order.
  abbrev pub heard : View Bytes
  heard = seen listen []

  pub heard-IgnoresWaits : IgnoresWaits heard
  heard-IgnoresWaits = record {
    clock = λ env log. refl;
    directions = λ s env log. refl;
    polling = λ fd i o t env log. refl;
    error = λ s env log. refl;
    errno = λ s env log. refl;
  }

  is_stopping-Held : Held heard is_stopping
  unfolding is_stopping
  is_stopping-Held = record { at = λ env log. refl }

  pub wait_local_socket-Held :
      (socket : ℕ) (i o : Bool) (deadline : ℕ) → Held heard (wait_local_socket socket i o deadline)
  unfolding wait_local_socket wait_local_round remaining_milliseconds
  wait_local_socket-Held socket i o deadline = Held-loop heard _ _ λ _.
      Held-bind heard _ _ is_stopping-Held λ stopping.
        Held-if heard stopping _ _ (Held-pure heard _) (
          Held-bind heard _ _
            (Held-bind heard _ _ (Held-ask heard _ (λ env log. refl)) (λ r. Held-pure heard _))
            λ n.
              Held-if heard (n == 0) _ _ (Held-pure heard _)
                (Held-bind heard _ _ (Held-ask heard _ (λ env log. refl)) (λ r. Held-pure heard _)))

  write_reply-Held :
      (socket deadline offset : ℕ) (r : Reply) → Held heard (write_reply socket deadline offset r)
  unfolding write_reply
  write_reply-Held socket deadline offset r =
      Held-if heard (ltb_ℤ (pos 0) r.value) _ _ (Held-pure heard _) (
        Held-if heard (eqb_ℤ r.value (pos 0)) _ _ (Held-pure heard _) (
          Held-if heard (not (is_transient r)) _ _ (Held-pure heard _) (
            Held-bind heard _ _ (wait_local_socket-Held socket false true deadline)
              (λ ready. Held-pure heard _))))

  pub write_socket_exact-Held :
      (socket : ℕ) (input : Bytes) → Held heard (write_socket_exact socket input)
  unfolding write_socket_exact write_round
  write_socket_exact-Held socket input =
      Held-bind heard _ _ (deadline_after-Held heard heard-IgnoresWaits _) λ deadline.
        Held-loop heard _ _ λ offset. Held-bind heard _ _ is_stopping-Held λ stopping.
          Held-if heard (not (ltb offset (length input)) || stopping) _ _ (Held-pure heard _) (
            Held-bind heard _ _ (Held-ask heard _ (λ env log. refl))
              (λ r. write_reply-Held socket deadline offset r))

module _ (env : Env) (fills : SocketReadFills env) (client size : ℕ) (before : Bytes) where
  -- Nothing is known of a read that fails; another has read exactly so many bytes.
  abbrev pub Exactly : Option Bytes → Log → Type 0
  Exactly none log = Unit {0}
  Exactly (some bytes) log = (heard client env log ≡ before ++ bytes) × (length bytes ≡ size)

  abbrev SoFar : Partial → Log → Type 0
  SoFar p log = (heard client env log ≡ before ++ p.output) × (length p.output ≡ p.offset)

  exact-Exactly : (p : Partial) (log : Log) → SoFar p log → Exactly (exact size p) log
  unfolding exact
  exact-Exactly p log (e, n) = either (p.offset == size) refl
    where
      either : (c : Bool) → (p.offset == size) ≡ c → Exactly (if c then some p.output else none) log
      either true h = (e, n ∙ (==_iff p.offset size).0 h)
      either false h = tt

  heard-recv :
      (p : Partial) (log : Log)
      → SoFar p log
      → let call = Call.recv client (size - p.offset) in
        let r = env.answer log call in
        SoFar
          (record {
            output = p.output ++ take (pos_part r.value) r.bytes;
            offset = p.offset + pos_part r.value;
          })
          (call ∷ log)
  heard-recv p log (e, n) =
      let r = env.answer log (Call.recv client (size - p.offset)) in
      let t = take (pos_part r.value) r.bytes in
      (
        rw ((==_iff client client).1 refl)
            (ap (λ out. out ++ t) e ∙ append_assoc before p.output t),
        omega (
          arith,
          n,
          length-append p.output t,
          length-take (pos_part r.value) r.bytes,
          fills log client (size - p.offset),
        ),
      )

  waited :
      (ready : Bool) (p : Partial) (log : Log)
      → SoFar p log
      → InTurn SoFar Exactly (or_give_up p ready) log
  waited true p log h = h
  waited false p log h = tt

  read_reply-After :
      (deadline : ℕ) (p : Partial) (r : Reply) (log : Log)
      → SoFar
          (record {
            output = p.output ++ take (pos_part r.value) r.bytes;
            offset = p.offset + pos_part r.value;
          })
          log
      → length p.output ≡ p.offset
      → After (InTurn SoFar Exactly) (read_reply client deadline p r env log)
  unfolding read_reply
  read_reply-After deadline p r log h n =
      let Q = InTurn SoFar Exactly in
      After-if Q (ltb_ℤ (pos 0) r.value) _ _ env log (λ _. After-pure Q _ env log h)
        λ k.
          After-if Q (eqb_ℤ r.value (pos 0)) _ _ env log (λ _. After-pure Q (done none) env log tt)
            λ _.
              After-if Q (not (is_transient r)) _ _ env log
                (λ _. After-pure Q (done none) env log tt)
                λ _.
                  After-Held Q env log (heard client) (before ++ p.output) _ _
                    (wait_local_socket-Held client client true false deadline)
                    (h.0
                      ∙ ap (λ v. before ++ (p.output ++ take v r.bytes)) (not_positive r.value k)
                      ∙ ap (◌++◌ before) (append-nil p.output))
                    (λ ready l e. After-pure Q _ env l (waited ready p l (e, n)))

  read_round-After :
      (deadline : ℕ) (p : Partial) (log : Log)
      → SoFar p log
      → After (InTurn SoFar Exactly) (read_round client size deadline p env log)
  unfolding read_round
  read_round-After deadline p log h =
      let Q = InTurn SoFar Exactly in
      After-is_stopping Q env log _ (
        After-if Q (not (ltb p.offset size) || env.stopping log) _ _ env log
          (λ _. After-pure Q _ env log (exact-Exactly p log h))
          (λ _.
            let call = Call.recv client (size - p.offset) in
            After-ask Q env log call _ (
              read_reply-After deadline p (env.answer log call) (call ∷ log) (heard-recv p log h)
                h.1)))

  pub read_socket_exact-After :
      (log : Log)
      → heard client env log ≡ before
      → After Exactly (read_socket_exact client size env log)
  unfolding read_socket_exact loop
  read_socket_exact-After log e =
      After-Held Exactly env log (heard client) before _ _
        (deadline_after-Held (heard client) (heard-IgnoresWaits client) _) e
        λ deadline l e'.
          After-rounds SoFar Exactly _ env (read_round-After deadline) env.fuel _ l
            (e' ∙ sym (append-nil before), refl)
