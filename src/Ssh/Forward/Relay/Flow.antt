-- ===== src/Ssh/Forward/Relay/Flow.antt =====
-- What passes through a connection that `RelayForwardConnection` of
-- entry/src/main/cpp/native_ssh_libssh2.cpp forwards, as seen in the log.
use tabssh_harmonyos.Prelude.{
  ℕ, ◌≡◌, refl, sym, ap, ◌∙◌, [], ◌∷◌, ◌++◌, Bytes, append_assoc, drop, take, take-append-drop,
  ◌==◌, ==_iff, if◌then◌else◌,
}
use tabssh_harmonyos.Prelude.Int.{pos_part}
use tabssh_harmonyos.Ssh.Calls.{Call, Reply, Env, Log}
use tabssh_harmonyos.Ssh.Channel.{close_channel_internal}
use tabssh_harmonyos.Ssh.Effects.Held.{
  View, seen, Held, Held-bind, Held-pure, IgnoresWaits, deadline_after-Held, wait_socket-Held,
  retry-Held,
}
use tabssh_harmonyos.Ssh.State.{SessionState}

-- The bytes received from the socket and taken by the channel, and those read from the channel and
-- taken by the socket.
pub record Relayed : Type 0 where
  pub from_socket : Bytes
  pub to_channel : Bytes
  pub from_channel : Bytes
  pub to_socket : Bytes

module _ (channel socket : ℕ) where
  abbrev pub pass : Call → Reply → Relayed → Relayed
  pass (Call.recv fd n) r t =
      if fd == socket
      then record t { from_socket = t.from_socket ++ take (pos_part r.value) r.bytes }
      else t
  pass (Call.send fd text) r t =
      if fd == socket
      then record t { to_socket = t.to_socket ++ take (pos_part r.value) text }
      else t
  pass (Call.channel_write c text) r t =
      if c == channel
      then record t { to_channel = t.to_channel ++ take (pos_part r.value) text }
      else t
  pass (Call.channel_read c stream n) r t =
      if c == channel
      then record t { from_channel = t.from_channel ++ take (pos_part r.value) r.bytes }
      else t
  pass _ r t = t

  abbrev pub relayed : View Relayed
  relayed =
      seen pass (record { from_socket = []; to_channel = []; from_channel = []; to_socket = [] })

  pub relayed-IgnoresWaits : IgnoresWaits relayed
  relayed-IgnoresWaits = record {
    clock = λ env log. refl;
    directions = λ s env log. refl;
    polling = λ fd i o t env log. refl;
    error = λ s env log. refl;
    errno = λ s env log. refl;
  }

  pub close_channel_internal-Held :
      (s : SessionState) (c : ℕ) → Held relayed (close_channel_internal s c)
  unfolding close_channel_internal
  close_channel_internal-Held s c =
      Held-bind relayed _ _ (deadline_after-Held relayed relayed-IgnoresWaits _) λ t.
        let wait = wait_socket-Held relayed relayed-IgnoresWaits _ _ t in
        let again = retry-Held relayed relayed-IgnoresWaits in
        Held-bind relayed _ _ (again _ _ (λ env log. refl) wait) λ _.
          Held-bind relayed _ _ (again _ _ (λ env log. refl) wait)
            λ _. Held-bind relayed _ _ (again _ _ (λ env log. refl) wait) (λ _. Held-pure relayed _)

self : {A : Type 0} (h : ℕ) (x y : A) → (if h == h then x else y) ≡ x
self h x y = rw ((==_iff h h).1 refl) refl

module _ (env : Env) (channel socket : ℕ) (b : Relayed) where
  -- Something of each direction has been passed on, in order, and the rest is pending.
  abbrev pub Flow : Bytes → Bytes → Log → Type 0
  Flow u w log =
      (p : Bytes) × (q : Bytes) × (relayed channel socket env log ≡ record {
        from_socket = b.from_socket ++ (p ++ u);
        to_channel = b.to_channel ++ p;
        from_channel = b.from_channel ++ (q ++ w);
        to_socket = b.to_socket ++ q;
      })

  assoc₃ : (x y z t : Bytes) → (x ++ (y ++ z)) ++ t ≡ x ++ (y ++ (z ++ t))
  assoc₃ x y z t = append_assoc x (y ++ z) t ∙ ap (◌++◌ x) (append_assoc y z t)

  split_rest : (x p u : Bytes) (v : ℕ) → x ++ (p ++ u) ≡ x ++ ((p ++ take v u) ++ drop v u)
  split_rest x p u v =
      ap (◌++◌ x)
        (ap (◌++◌ p) (sym (take-append-drop v u)) ∙ sym (append_assoc p (take v u) (drop v u)))

  pub Flow-recv :
      (u w : Bytes) (n : ℕ) (log : Log)
      → Flow u w log
      → let call = Call.recv socket n in
        let r = env.answer log call in Flow (u ++ take (pos_part r.value) r.bytes) w (call ∷ log)
  Flow-recv u w n log (p, q, e) =
      let call = Call.recv socket n in
      let r = env.answer log call in
      (
        p,
        q,
        self socket _ _
            ∙ ap
                (λ (t : Relayed). record t {
                  from_socket = t.from_socket ++ take (pos_part r.value) r.bytes;
                })
                e
            ∙ ap
                (λ text. record {
                  from_socket = text;
                  to_channel = b.to_channel ++ p;
                  from_channel = b.from_channel ++ (q ++ w);
                  to_socket = b.to_socket ++ q;
                })
                (assoc₃ b.from_socket p u (take (pos_part r.value) r.bytes)),
      )

  pub Flow-read :
      (u w : Bytes) (n : ℕ) (log : Log)
      → Flow u w log
      → let call = Call.channel_read channel 0 n in
        let r = env.answer log call in Flow u (w ++ take (pos_part r.value) r.bytes) (call ∷ log)
  Flow-read u w n log (p, q, e) =
      let call = Call.channel_read channel 0 n in
      let r = env.answer log call in
      (
        p,
        q,
        self channel _ _
            ∙ ap
                (λ (t : Relayed). record t {
                  from_channel = t.from_channel ++ take (pos_part r.value) r.bytes;
                })
                e
            ∙ ap
                (λ text. record {
                  from_socket = b.from_socket ++ (p ++ u);
                  to_channel = b.to_channel ++ p;
                  from_channel = text;
                  to_socket = b.to_socket ++ q;
                })
                (assoc₃ b.from_channel q w (take (pos_part r.value) r.bytes)),
      )

  pub Flow-send :
      (u w : Bytes) (log : Log)
      → Flow u w log
      → let call = Call.send socket w in
        Flow u (drop (pos_part (env.answer log call).value) w) (call ∷ log)
  Flow-send u w log (p, q, e) =
      let v = pos_part (env.answer log (Call.send socket w)).value in
      (
        p,
        q ++ take v w,
        self socket _ _
            ∙ ap (λ (t : Relayed). record t { to_socket = t.to_socket ++ take v w }) e
            ∙ ap
                (λ text. record {
                  from_socket = b.from_socket ++ (p ++ u);
                  to_channel = b.to_channel ++ p;
                  from_channel = text;
                  to_socket = (b.to_socket ++ q) ++ take v w;
                })
                (split_rest b.from_channel q w v)
            ∙ ap
                (λ text. record {
                  from_socket = b.from_socket ++ (p ++ u);
                  to_channel = b.to_channel ++ p;
                  from_channel = b.from_channel ++ ((q ++ take v w) ++ drop v w);
                  to_socket = text;
                })
                (append_assoc b.to_socket q (take v w)),
      )

  pub Flow-write :
      (u w : Bytes) (log : Log)
      → Flow u w log
      → let call = Call.channel_write channel u in
        Flow (drop (pos_part (env.answer log call).value) u) w (call ∷ log)
  Flow-write u w log (p, q, e) =
      let v = pos_part (env.answer log (Call.channel_write channel u)).value in
      (
        p ++ take v u,
        q,
        self channel _ _
            ∙ ap (λ (t : Relayed). record t { to_channel = t.to_channel ++ take v u }) e
            ∙ ap
                (λ text. record {
                  from_socket = text;
                  to_channel = (b.to_channel ++ p) ++ take v u;
                  from_channel = b.from_channel ++ (q ++ w);
                  to_socket = b.to_socket ++ q;
                })
                (split_rest b.from_socket p u v)
            ∙ ap
                (λ text. record {
                  from_socket = b.from_socket ++ ((p ++ take v u) ++ drop v u);
                  to_channel = text;
                  from_channel = b.from_channel ++ (q ++ w);
                  to_socket = b.to_socket ++ q;
                })
                (append_assoc b.to_channel p (take v u)),
      )
