-- ===== src/Ssh/Forward/Relay/Exchange.antt =====
-- What `RelayForwardConnection` in entry/src/main/cpp/native_ssh_libssh2.cpp does under its mutex keeps
-- both directions in order.
use mathlib.Core.Path.{subst}
use tabssh_harmonyos.Prelude.{ℕ, sym, Bool, not, ◌&&◌, ◌∷◌, Option, none, some}
use tabssh_harmonyos.Prelude.Int.{pos, ltb_ℤ, eqb_ℤ}
use tabssh_harmonyos.Ssh.Calls.{Call, Reply, Env, Log}
use tabssh_harmonyos.Ssh.Effects.{After, After-bind, After-if, After-pure}
use tabssh_harmonyos.Ssh.Effects.Runs.{After-ask, After-test}
use tabssh_harmonyos.Ssh.Forward.Relay.{
  Relay, is_drained, has_room, has_pending, pending, channel_written, write_channel, eof_sent,
  send_eof, channel_read, read_channel, test_eof, exchange,
}
use tabssh_harmonyos.Ssh.Forward.Relay.Buffers.{
  pending-fill, fill-IsWithin, pending-advance, advance-IsWithin,
}
use tabssh_harmonyos.Ssh.Forward.Relay.Flow.{Relayed, Flow, Flow-read, Flow-write}
use tabssh_harmonyos.Ssh.State.{SessionState}
use tabssh_harmonyos.Ssh.Terminal.Written.{TakesOffered}
use tabssh_harmonyos.Ssh.Forward.Relay.Balance
use tabssh_harmonyos.Ssh.Forward.Relay.Balance.{
  SocketTakesOffered, either_way, not_positive, take_nothing, drop_nothing,
}

module _ (env : Env) (offered : TakesOffered env) (sends : SocketTakesOffered env)
    (channel socket : ℕ) (b : Relayed) where
  abbrev Balanced : Relay → Log → Type 0
  Balanced = Balance.Balanced env offered sends channel socket b

  channel_written-Balanced :
      (relay : Relay) (blocked : Bool) (log : Log)
      → Balanced relay log
      → let call = Call.channel_write channel (pending relay.to_ssh) in
        Balanced (channel_written relay (env.answer log call) blocked) (call ∷ log)
  unfolding channel_written
  channel_written-Balanced relay blocked log (flow, i, j) =
      let u = pending relay.to_ssh in
      let w = pending relay.to_socket in
      let call = Call.channel_write channel u in
      let r = env.answer log call in
      let flow' = Flow-write env channel socket b u w log flow in
      let P : Relay → Type 0 = λ relay'. Balanced relay' (call ∷ log) in
      either_way P (ltb_ℤ (pos 0) r.value) _ _
        (λ _. (
          subst (λ x. Flow env channel socket b x w (call ∷ log))
              (sym (pending-advance r relay.to_ssh)) flow',
          advance-IsWithin r relay.to_ssh i (offered log channel u),
          j,
        ))
        (λ h.
          let same =
            subst (λ x. Flow env channel socket b x w (call ∷ log))
              (drop_nothing u _ (not_positive r.value h)) flow' in
          either_way P (not blocked && not (eqb_ℤ r.value (pos 0))) _ _ (λ _. (same, i, j))
            (λ _. (same, i, j)))

  write_channel-Balanced :
      (relay : Relay) (log : Log)
      → Balanced relay log
      → After Balanced (write_channel channel relay env log)
  unfolding write_channel
  write_channel-Balanced relay log h =
      After-if Balanced (has_pending relay.to_ssh) _ _ env log
        (λ _.
          let call = Call.channel_write channel (pending relay.to_ssh) in
          After-ask Balanced env log call _ (
            After-test Balanced env (call ∷ log) (env.answer log call) _
              (After-pure Balanced _ env (call ∷ log) (channel_written-Balanced relay _ log h))))
        (λ _. After-pure Balanced relay env log h)

  eof_sent-Balanced :
      (relay : Relay) (r : Reply) (blocked : Bool) (log : Log)
      → Balanced relay log
      → Balanced (eof_sent relay r blocked) log
  unfolding eof_sent
  eof_sent-Balanced relay r blocked log h =
      let P : Relay → Type 0 = λ relay'. Balanced relay' log in
      either_way P (eqb_ℤ r.value (pos 0)) _ _ (λ _. h)
        (λ _. either_way P (not blocked) _ _ (λ _. h) (λ _. h))

  send_eof-Balanced :
      (relay : Relay) (log : Log)
      → Balanced relay log
      → After Balanced (send_eof channel relay env log)
  unfolding send_eof
  send_eof-Balanced relay log h =
      After-if Balanced
        (relay.socket_read_closed && (is_drained relay.to_ssh && not relay.channel_eof_sent)) _ _
        env log
        (λ _.
          let call = Call.channel_send_eof channel in
          After-ask Balanced env log call _ (
            After-test Balanced env (call ∷ log) (env.answer log call) _ (
              After-pure Balanced _ env (call ∷ log)
                (eof_sent-Balanced relay (env.answer log call) _ (call ∷ log) h))))
        (λ _. After-pure Balanced relay env log h)

  channel_read-Balanced :
      (relay : Relay) (blocked : Bool) (log : Log)
      → Balanced relay log
      → let call = Call.channel_read channel 0 32768 in
        Balanced (channel_read relay (env.answer log call) blocked) (call ∷ log)
  unfolding channel_read
  channel_read-Balanced relay blocked log (flow, i, j) =
      let u = pending relay.to_ssh in
      let w = pending relay.to_socket in
      let call = Call.channel_read channel 0 32768 in
      let r = env.answer log call in
      let flow' = Flow-read env channel socket b u w 32768 log flow in
      let P : Relay → Type 0 = λ relay'. Balanced relay' (call ∷ log) in
      either_way P (ltb_ℤ (pos 0) r.value) _ _
        (λ _. (
          subst (λ x. Flow env channel socket b u x (call ∷ log))
              (sym (pending-fill r relay.to_socket j)) flow',
          i,
          fill-IsWithin r relay.to_socket j,
        ))
        (λ h.
          let same =
            subst (λ x. Flow env channel socket b u x (call ∷ log))
              (take_nothing w r.bytes _ (not_positive r.value h)) flow' in
          either_way P (not blocked && ltb_ℤ r.value (pos 0)) _ _ (λ _. (same, i, j))
            (λ _. (same, i, j)))

  read_channel-Balanced :
      (relay : Relay) (log : Log)
      → Balanced relay log
      → After Balanced (read_channel channel relay env log)
  unfolding read_channel
  read_channel-Balanced relay log h =
      After-if Balanced (not relay.channel_read_closed && has_room relay.to_socket) _ _ env log
        (λ _.
          let call = Call.channel_read channel 0 32768 in
          After-ask Balanced env log call _ (
            After-test Balanced env (call ∷ log) (env.answer log call) _
              (After-pure Balanced _ env (call ∷ log) (channel_read-Balanced relay _ log h))))
        (λ _. After-pure Balanced relay env log h)

  test_eof-Balanced :
      (relay : Relay) (log : Log)
      → Balanced relay log
      → After Balanced (test_eof channel relay env log)
  unfolding test_eof
  test_eof-Balanced relay log h =
      let call = Call.channel_eof channel in
      After-ask Balanced env log call _ (After-pure Balanced _ env (call ∷ log) h)

  pub exchange-Balanced :
      (relay : Relay) (o : Option SessionState) (log : Log)
      → Balanced relay log
      → After Balanced (exchange channel relay o env log)
  unfolding exchange
  exchange-Balanced relay none log h = After-pure Balanced _ env log h
  exchange-Balanced relay (some s) log h =
      After-bind Balanced Balanced _ _ env log (write_channel-Balanced relay log h) λ r₁ l₁ h₁.
        After-bind Balanced Balanced _ _ env l₁ (send_eof-Balanced r₁ l₁ h₁) λ r₂ l₂ h₂.
          After-bind Balanced Balanced _ _ env l₂ (read_channel-Balanced r₂ l₂ h₂) test_eof-Balanced
