-- ===== src/Ssh/Forward/Relay/Balance.antt =====
-- Each part of a round of `RelayForwardConnection` in entry/src/main/cpp/native_ssh_libssh2.cpp keeps
-- both directions in order.
use mathlib.Core.Path.{subst}
use tabssh_harmonyos.Prelude.{
  ℕ, ◌≤◌, ◌≡◌, refl, sym, Bool, true, false, not, ◌&&◌, ◌∷◌, ◌++◌, Bytes, append-nil, arith, drop,
  length, take, if◌then◌else◌,
}
use tabssh_harmonyos.Prelude.Int.{ℤ, pos, negsuc, pos_part, ltb_ℤ, eqb_ℤ}
use tabssh_harmonyos.Ssh.Calls.{Call, Reply, Env, Log}
use tabssh_harmonyos.Ssh.Effects.{After, After-if, After-pure}
use tabssh_harmonyos.Ssh.Effects.Runs.{After-ask}
use tabssh_harmonyos.Ssh.Forward.Relay.{
  Relay, is_drained, recycled, has_pending, pending, is_transient, received, receive, sent_out,
  send_out, note_events, shut_down,
}
use tabssh_harmonyos.Ssh.Forward.Relay.Buffers.{
  IsWithin, pending-recycle, recycle-IsWithin, pending-fill, fill-IsWithin, pending-advance,
  advance-IsWithin,
}
use tabssh_harmonyos.Ssh.Forward.Relay.Flow.{Relayed, Flow, Flow-recv, Flow-send}
use tabssh_harmonyos.Ssh.Terminal.Written.{TakesOffered}

-- `send` takes at most what it is offered.
abbrev pub SocketTakesOffered : Env → Type 0
SocketTakesOffered env =
    (log : Log) (socket : ℕ) (text : Bytes)
    → pos_part (env.answer log (Call.send socket text)).value ≤ length text

pub either_way :
    {A : Type 0} (P : A → Type 0) (c : Bool) (x y : A)
    → (c ≡ true → P x)
    → (c ≡ false → P y)
    → P (if c then x else y)
either_way P true x y h k = h refl
either_way P false x y h k = k refl

pub not_positive : (v : ℤ) → ltb_ℤ (pos 0) v ≡ false → pos_part v ≡ 0
not_positive (pos n) h = ground arith
not_positive (negsuc n) h = refl

pub take_nothing : (u bytes : Bytes) (v : ℕ) → v ≡ 0 → u ++ take v bytes ≡ u
take_nothing u bytes v h = rw h (append-nil u)

pub drop_nothing : (u : Bytes) (v : ℕ) → v ≡ 0 → drop v u ≡ u
drop_nothing u v h = rw h refl

module _ (env : Env) (offered : TakesOffered env) (sends : SocketTakesOffered env)
    (channel socket : ℕ) (b : Relayed) where
  abbrev pub Balanced : Relay → Log → Type 0
  Balanced relay log =
      Flow env channel socket b (pending relay.to_ssh) (pending relay.to_socket) log
      × IsWithin relay.to_ssh
      × IsWithin relay.to_socket

  pub recycled-Balanced :
      (relay : Relay) (log : Log) → Balanced relay log → Balanced (recycled relay) log
  unfolding recycled
  recycled-Balanced relay log (flow, i, j) = (
    subst (λ u. Flow env channel socket b u (pending (recycled relay).to_socket) log)
        (sym (pending-recycle relay.to_ssh))
        (subst (λ w. Flow env channel socket b (pending relay.to_ssh) w log)
          (sym (pending-recycle relay.to_socket)) flow),
    recycle-IsWithin relay.to_ssh i,
    recycle-IsWithin relay.to_socket j,
  )

  received-Balanced :
      (relay : Relay) (log : Log)
      → Balanced relay log
      → let call = Call.recv socket 32768 in
        Balanced (received relay (env.answer log call)) (call ∷ log)
  unfolding received
  received-Balanced relay log (flow, i, j) =
      let call = Call.recv socket 32768 in
      let r = env.answer log call in
      let w = pending relay.to_socket in
      let flow' = Flow-recv env channel socket b (pending relay.to_ssh) w 32768 log flow in
      let P : Relay → Type 0 = λ relay'. Balanced relay' (call ∷ log) in
      either_way P (ltb_ℤ (pos 0) r.value) _ _
        (λ _. (
          subst (λ u. Flow env channel socket b u w (call ∷ log))
              (sym (pending-fill r relay.to_ssh i)) flow',
          fill-IsWithin r relay.to_ssh i,
          j,
        ))
        (λ h.
          let same =
            subst (λ u. Flow env channel socket b u w (call ∷ log))
              (take_nothing (pending relay.to_ssh) r.bytes _ (not_positive r.value h)) flow' in
          either_way P (eqb_ℤ r.value (pos 0)) _ _ (λ _. (same, i, j))
            (λ _. either_way P (not (is_transient r)) _ _ (λ _. (same, i, j)) (λ _. (same, i, j))))

  pub receive-Balanced :
      (relay : Relay) (event : Reply) (log : Log)
      → Balanced relay log
      → After Balanced (receive socket relay event env log)
  unfolding receive
  receive-Balanced relay event log h =
      After-if Balanced (ltb_ℤ (pos 0) event.value && event.inbound) _ _ env log
        (λ _.
          let call = Call.recv socket 32768 in
          After-ask Balanced env log call _
            (After-pure Balanced _ env (call ∷ log) (received-Balanced relay log h)))
        (λ _. After-pure Balanced relay env log h)

  sent_out-Balanced :
      (relay : Relay) (log : Log)
      → Balanced relay log
      → let call = Call.send socket (pending relay.to_socket) in
        Balanced (sent_out relay (env.answer log call)) (call ∷ log)
  unfolding sent_out
  sent_out-Balanced relay log (flow, i, j) =
      let u = pending relay.to_ssh in
      let w = pending relay.to_socket in
      let call = Call.send socket w in
      let r = env.answer log call in
      let flow' = Flow-send env channel socket b u w log flow in
      let P : Relay → Type 0 = λ relay'. Balanced relay' (call ∷ log) in
      either_way P (ltb_ℤ (pos 0) r.value) _ _
        (λ _. (
          subst (λ x. Flow env channel socket b u x (call ∷ log))
              (sym (pending-advance r relay.to_socket)) flow',
          i,
          advance-IsWithin r relay.to_socket j (sends log socket w),
        ))
        (λ h.
          let same =
            subst (λ x. Flow env channel socket b u x (call ∷ log))
              (drop_nothing w _ (not_positive r.value h)) flow' in
          either_way P (ltb_ℤ r.value (pos 0) && not (is_transient r)) _ _ (λ _. (same, i, j))
            (λ _. (same, i, j)))

  pub send_out-Balanced :
      (relay : Relay) (event : Reply) (log : Log)
      → Balanced relay log
      → After Balanced (send_out socket relay event env log)
  unfolding send_out
  send_out-Balanced relay event log h =
      After-if Balanced
        (ltb_ℤ (pos 0) event.value && (event.outbound && has_pending relay.to_socket)) _ _ env log
        (λ _.
          let call = Call.send socket (pending relay.to_socket) in
          After-ask Balanced env log call _
            (After-pure Balanced _ env (call ∷ log) (sent_out-Balanced relay log h)))
        (λ _. After-pure Balanced relay env log h)

  pub note_events-Balanced :
      (relay : Relay) (event : Reply) (log : Log)
      → Balanced relay log
      → Balanced (note_events relay event) log
  unfolding note_events
  note_events-Balanced relay event log h = h

  pub shut_down-Balanced :
      (relay : Relay) (log : Log)
      → Balanced relay log
      → After Balanced (shut_down socket relay env log)
  unfolding shut_down
  shut_down-Balanced relay log h =
      After-if Balanced
        (relay.channel_read_closed && (is_drained relay.to_socket && not relay.socket_write_closed))
        _ _ env log
        (λ _.
          let call = Call.shutdown_write socket in
          After-ask Balanced env log call _ (After-pure Balanced _ env (call ∷ log) h))
        (λ _. After-pure Balanced relay env log h)
