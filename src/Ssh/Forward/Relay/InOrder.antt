-- ===== src/Ssh/Forward/Relay/InOrder.antt =====
-- `RelayForwardConnection` of entry/src/main/cpp/native_ssh_libssh2.cpp passes on what it reads.
use tabssh_harmonyos.Prelude.{
  ℕ, ◌≡◌, refl, ◌∙◌, Bool, true, not, ◌&&◌, ◌||◌, [], ◌∷◌, ◌++◌, Option, none, some, Bytes,
  append-nil, arith, if◌then◌else◌,
}
use tabssh_harmonyos.Prelude.Int.{pos, ltb_ℤ}
use tabssh_harmonyos.Ssh.Calls.{Call, Reply, Env, Log, pure, look, done, loop}
use tabssh_harmonyos.Ssh.Effects.{After, After-bind, After-if, After-pure, After-rounds, InTurn}
use tabssh_harmonyos.Ssh.Effects.Held.{Held, Held-bind, Held-pure, Held-on_pointer}
use tabssh_harmonyos.Ssh.Effects.Runs.{After-ask, After-look, After-is_stopping, After-Held}
use tabssh_harmonyos.Ssh.Forward.Relay.{
  Relay, new_relay, pending, recycled, is_finished, end_round, has_room, has_pending, note_events,
  relay_events, relay_round, relay_loop, close_on, close_forward_channel, relay_forward_connection,
}
use tabssh_harmonyos.Ssh.Forward.Relay.Balance
use tabssh_harmonyos.Ssh.Forward.Relay.Balance.{
  SocketTakesOffered, recycled-Balanced, receive-Balanced, send_out-Balanced, note_events-Balanced,
  shut_down-Balanced, either_way,
}
use tabssh_harmonyos.Ssh.Forward.Relay.Buffers.{is_drained-pending}
use tabssh_harmonyos.Ssh.Forward.Relay.Exchange.{exchange-Balanced}
use tabssh_harmonyos.Ssh.Forward.Relay.Flow.{Relayed, relayed, close_channel_internal-Held}
use tabssh_harmonyos.Ssh.State.{SessionState}
use tabssh_harmonyos.Ssh.Terminal.Written.{TakesOffered}
use tabssh_harmonyos.Ssh.Trust.Globals.{After-eq}

close_on-Held :
    (c channel socket : ℕ) (o : Option SessionState) → Held (relayed channel socket) (close_on c o)
unfolding close_on
close_on-Held c channel socket none = Held-pure (relayed channel socket) tt
close_on-Held c channel socket (some s) =
    Held-on_pointer (relayed channel socket) s.session _ _ (Held-pure (relayed channel socket) tt)
      (λ _. close_channel_internal-Held channel socket s c)

look-Held : (channel socket : ℕ) → Held (relayed channel socket) look
unfolding look
look-Held channel socket = record { at = λ env log. refl }

close_forward_channel-Held :
    (id : Bytes) (c channel socket : ℕ) → Held (relayed channel socket) (close_forward_channel id c)
unfolding close_forward_channel
close_forward_channel-Held id c channel socket =
    Held-bind (relayed channel socket) _ _ (look-Held channel socket)
      (λ core. close_on-Held c channel socket _)

at_rest :
    (b : Relayed)
    → b ≡ record {
      from_socket = b.from_socket ++ [];
      to_channel = b.to_channel ++ [];
      from_channel = b.from_channel ++ [];
      to_socket = b.to_socket ++ [];
    }
at_rest b =
    rw
      (
        append-nil b.from_socket,
        append-nil b.to_channel,
        append-nil b.from_channel,
        append-nil b.to_socket,
      )
      refl

module _ (env : Env) (offered : TakesOffered env) (sends : SocketTakesOffered env) (id : Bytes)
    (channel socket : ℕ) (b : Relayed) where
  abbrev Balanced : Relay → Log → Type 0
  Balanced = Balance.Balanced env offered sends channel socket b

  end_round-Balanced :
      (relay : Relay) (log : Log)
      → Balanced relay log
      → InTurn Balanced Balanced (end_round relay) log
  unfolding end_round
  end_round-Balanced relay log h =
      either_way (λ turn. InTurn Balanced Balanced turn log) (is_finished relay) _ _ (λ _. h)
        (λ _. h)

  relay_events-Balanced :
      (relay : Relay) (event : Reply) (log : Log)
      → Balanced relay log
      → After (InTurn Balanced Balanced) (relay_events id channel socket relay event env log)
  unfolding relay_events
  relay_events-Balanced relay event log h =
      let Q = InTurn Balanced Balanced in
      After-bind Balanced Q _ _ env log
        (receive-Balanced env offered sends channel socket b relay event log h)
        λ r₁ l₁ h₁.
          After-bind Balanced Q _ _ env l₁
            (send_out-Balanced env offered sends channel socket b r₁ event l₁ h₁)
            λ r₂ l₂ h₂. After-look Q env l₂ _ (
              After-bind Balanced Q _ _ env l₂
                (exchange-Balanced env offered sends channel socket b (note_events r₂ event) _ l₂
                  (note_events-Balanced env offered sends channel socket b r₂ event l₂ h₂))
                λ r₃ l₃ h₃.
                  After-bind Balanced Q _ _ env l₃
                    (shut_down-Balanced env offered sends channel socket b r₃ l₃ h₃)
                    λ r₄ l₄ h₄. After-pure Q _ env l₄ (end_round-Balanced r₄ l₄ h₄))

  poll_events-Balanced :
      (relay : Relay) (event : Reply) (log : Log)
      → Balanced relay log
      → After (InTurn Balanced Balanced) (
          (if ltb_ℤ event.value (pos 0) && not event.interrupted
              then pure (done relay)
              else relay_events id channel socket relay event)
            env log)
  poll_events-Balanced relay event log h =
      let Q = InTurn Balanced Balanced in
      After-if Q (ltb_ℤ event.value (pos 0) && not event.interrupted) _ _ env log
        (λ _. After-pure Q (done relay) env log h) (λ _. relay_events-Balanced relay event log h)

  relay_round-Balanced :
      (relay : Relay) (log : Log)
      → Balanced relay log
      → After (InTurn Balanced Balanced) (relay_round id channel socket relay env log)
  unfolding relay_round
  relay_round-Balanced relay log h =
      let Q = InTurn Balanced Balanced in
      After-is_stopping Q env log _ (
        After-if Q (env.stopping log || relay.fatal) _ _ env log
          (λ _. After-pure Q (done relay) env log h)
          (λ _.
            let ready = recycled relay in
            let call =
              Call.poll_local socket (not ready.socket_read_closed && has_room ready.to_ssh)
                (has_pending ready.to_socket) 20 in
            After-ask Q env log call _ (
              poll_events-Balanced ready (env.answer log call) (call ∷ log)
                (recycled-Balanced env offered sends channel socket b relay log h))))

  relay_loop-Balanced :
      (log : Log)
      → relayed channel socket env log ≡ b
      → After Balanced (relay_loop id channel socket env log)
  unfolding relay_loop loop pending
  relay_loop-Balanced log e =
      After-rounds Balanced Balanced _ env relay_round-Balanced env.fuel new_relay log
        (([], [], e ∙ at_rest b), omega arith, omega arith)

-- What has been received and not passed on, for each direction.
abbrev pub PassedOn : Relayed → Relayed → Bool → Type 0
PassedOn t t' finished =
    (x : Bytes) × (u : Bytes) × (y : Bytes) × (w : Bytes) × (t' ≡ record {
      from_socket = t.from_socket ++ (x ++ u);
      to_channel = t.to_channel ++ x;
      from_channel = t.from_channel ++ (y ++ w);
      to_socket = t.to_socket ++ y;
    })
    × (finished ≡ true → (u ≡ []) × (w ≡ []))

finished-pending :
    (relay : Relay)
    → is_finished relay ≡ true
    → (pending relay.to_ssh ≡ []) × (pending relay.to_socket ≡ [])
unfolding is_finished
finished-pending relay h = (
  is_drained-pending relay.to_ssh (ground arith),
  is_drained-pending relay.to_socket (ground arith),
)

abbrev InOrder : Env → ℕ → ℕ → Log → Relay → Log → Type 0
InOrder env channel socket log relay log' =
    PassedOn (relayed channel socket env log) (relayed channel socket env log') (is_finished relay)

relay_forward_connection-After :
    (env : Env) (id : Bytes) (channel socket : ℕ) (log : Log)
    → TakesOffered env
    → SocketTakesOffered env
    → After (InOrder env channel socket log) (relay_forward_connection id channel socket env log)
unfolding relay_forward_connection
relay_forward_connection-After env id channel socket log offered sends =
    let b = relayed channel socket env log in
    let Q = InOrder env channel socket log in
    After-bind (Balance.Balanced env offered sends channel socket b) Q _ _ env log
      (relay_loop-Balanced env offered sends id channel socket b log refl)
      λ relay l h.
        let close = Call.close_fd socket in
        After-ask Q env l close _ (
          After-Held Q env (close ∷ l) (relayed channel socket) _ _ _
            (close_forward_channel-Held id channel channel socket) refl
            (λ _ l' e. After-pure Q _ env l' (
              h.0.0,
              pending relay.to_ssh,
              h.0.1,
              pending relay.to_socket,
              e ∙ h.0.2,
              finished-pending relay,
            )))

-- However the socket, libssh2 and the other threads behave, a relayed connection that ends has handed
-- to the channel, in order, a first part of what it received from the socket, and to the socket a first
-- part of what it read from the channel; all of both where the loop has ended with both sides closed
-- and both buffers drained; if neither `send` nor libssh2_channel_write_ex takes more than it is
-- offered.
pub relay_forward_connection-in_order :
    (env : Env) (id : Bytes) (channel socket : ℕ) (log : Log) {relay : Relay} {log' : Log}
    → TakesOffered env
    → SocketTakesOffered env
    → relay_forward_connection id channel socket env log ≡ some (relay, log')
    → PassedOn
        (relayed channel socket env log)
        (relayed channel socket env log')
        (is_finished relay)
relay_forward_connection-in_order env id channel socket log offered sends e =
    After-eq (InOrder env channel socket log) _ _ _
      (relay_forward_connection-After env id channel socket log offered sends) e
