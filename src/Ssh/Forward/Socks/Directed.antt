-- ===== src/Ssh/Forward/Socks/Directed.antt =====
-- The connections that the SOCKS server of entry/src/main/cpp/native_ssh_libssh2.cpp asks libssh2 for, as
-- seen in the log: its negotiation and the relay ask for none.
use tabssh_harmonyos.Prelude.{
  ℕ, ◌+◌, ◌*◌, ◌≡◌, refl, Bool, true, false, not, ◌&&◌, ◌||◌, List, [], ◌∷◌, Option, none, some,
  Bytes, length, ltb, ◌==◌, if◌then◌else◌,
}
use tabssh_harmonyos.Prelude.Int.{pos, ltb_ℤ, eqb_ℤ}
use tabssh_harmonyos.Prelude.Map.{lookup}
use tabssh_harmonyos.Ssh.Calls.{
  Call, Reply, Env, Log, Io, look, is_stopping, ask, test_again, pure, ◌>>=◌,
}
use tabssh_harmonyos.Ssh.Channel.{close_channel_internal}
use tabssh_harmonyos.Ssh.Effects.Held.{
  View, seen, Held, Held-pure, Held-ask, Held-bind, Held-if, Held-on_pointer, Held-loop,
  Held-test_again, IgnoresWaits, deadline_after-Held, wait_socket-Held, retry-Held,
}
use tabssh_harmonyos.Ssh.Forward.Relay.{
  Relay, has_room, has_pending, is_drained, receive, send_out, note_events, write_channel, send_eof,
  read_channel, test_eof, exchange, shut_down, is_transient, relay_events, relay_round, relay_loop,
  close_on, close_forward_channel, relay_forward_connection,
}
use tabssh_harmonyos.Ssh.Forward.Socket.{
  wait_local_round, wait_local_socket, read_reply, read_round, read_socket_exact, write_reply,
  write_round, write_socket_exact,
}
use tabssh_harmonyos.Ssh.Forward.Socks.{
  send_socks_reply, close_client, refuse, read_address, take_name, read_name, read_host, check_port,
  read_port, on_request, on_methods, on_greeting, negotiate, byte_of, has_zero, after_success,
  is_valid_forward_port,
}
use tabssh_harmonyos.Ssh.Network.{remaining_milliseconds}
use tabssh_harmonyos.Ssh.State.{SessionState, find_authenticated_session}

abbrev pub direct : Call → Reply → List Call → List Call
direct (Call.channel_direct_tcpip s host port origin) r calls =
    Call.channel_direct_tcpip s host port origin ∷ calls
direct _ r calls = calls

-- The calls of libssh2_channel_direct_tcpip, the last one first.
abbrev pub directed : View (List Call)
directed = seen direct []

pub directed-IgnoresWaits : IgnoresWaits directed
directed-IgnoresWaits = record {
  clock = λ env log. refl;
  directions = λ s env log. refl;
  polling = λ fd i o t env log. refl;
  error = λ s env log. refl;
  errno = λ s env log. refl;
}

-- An action that asks for no connection.
abbrev pub Still : {A : Type 0} → Io A → Type 0
Still m = Held directed m

bind :
    {A B : Type 0} {m : Io A} {k : A → Io B} → Still m → ((a : A) → Still (k a)) → Still (m >>= k)
bind {m = m} {k = k} h g = Held-bind directed m k h g

result : {A : Type 0} (a : A) → Still (pure a)
result a = Held-pure directed a

is_stopping-Still : Still is_stopping
unfolding is_stopping
is_stopping-Still = record { at = λ env log. refl }

look-Still : Still look
unfolding look
look-Still = record { at = λ env log. refl }

pub remaining-Still : (deadline : ℕ) → Still (remaining_milliseconds deadline)
unfolding remaining_milliseconds
remaining-Still deadline = bind (Held-ask directed _ (λ env log. refl)) (λ r. result _)

wait_local_socket-Still :
    (socket : ℕ) (i o : Bool) (deadline : ℕ) → Still (wait_local_socket socket i o deadline)
unfolding wait_local_socket wait_local_round
wait_local_socket-Still socket i o deadline = Held-loop directed _ _ λ _.
    bind is_stopping-Still λ stopping. Held-if directed stopping _ _ (result _) (
      bind (remaining-Still deadline) λ n.
        Held-if directed (n == 0) _ _ (result _)
          (bind (Held-ask directed _ (λ env log. refl)) (λ r. result _)))

write_socket_exact-Still : (socket : ℕ) (input : Bytes) → Still (write_socket_exact socket input)
unfolding write_socket_exact write_round write_reply
write_socket_exact-Still socket input =
    bind (deadline_after-Held directed directed-IgnoresWaits _) λ deadline.
      Held-loop directed _ _ λ offset. bind is_stopping-Still λ stopping.
        Held-if directed (not (ltb offset (length input)) || stopping) _ _ (result _) (
          bind (Held-ask directed _ (λ env log. refl)) λ r.
            Held-if directed (ltb_ℤ (pos 0) r.value) _ _ (result _) (
              Held-if directed (eqb_ℤ r.value (pos 0)) _ _ (result _) (
                Held-if directed (not (is_transient r)) _ _ (result _)
                  (bind (wait_local_socket-Still socket false true deadline) (λ ready. result _)))))

read_socket_exact-Still : (socket size : ℕ) → Still (read_socket_exact socket size)
unfolding read_socket_exact read_round read_reply
read_socket_exact-Still socket size =
    bind (deadline_after-Held directed directed-IgnoresWaits _) λ deadline.
      Held-loop directed _ _ λ partial. bind is_stopping-Still λ stopping.
        Held-if directed (not (ltb partial.offset size) || stopping) _ _ (result _) (
          bind (Held-ask directed _ (λ env log. refl)) λ r.
            Held-if directed (ltb_ℤ (pos 0) r.value) _ _ (result _) (
              Held-if directed (eqb_ℤ r.value (pos 0)) _ _ (result _) (
                Held-if directed (not (is_transient r)) _ _ (result _)
                  (bind (wait_local_socket-Still socket true false deadline) (λ ready. result _)))))

pub send_socks_reply-Still : (client code : ℕ) → Still (send_socks_reply client code)
unfolding send_socks_reply
send_socks_reply-Still client code = write_socket_exact-Still client _

close_client-Still : {A : Type 0} (client : ℕ) → Still (close_client {A = A} client)
close_client-Still client = bind (Held-ask directed _ (λ env log. refl)) (λ r. result _)

refuse-Still : {A : Type 0} (client code : ℕ) → Still (refuse {A = A} client code)
refuse-Still client code =
    bind (send_socks_reply-Still client code) (λ r. close_client-Still client)

read_address-Still : (client : ℕ) (o : Option Bytes) → Still (read_address client o)
unfolding read_address
read_address-Still client none = refuse-Still client 8
read_address-Still client (some bytes) =
    bind (Held-ask directed _ (λ env log. refl))
      λ r. Held-on_pointer directed r.pointer _ _ (refuse-Still client 8) (λ p. result _)

read_name-Still : (client : ℕ) (o : Option Bytes) → Still (read_name client o)
unfolding read_name take_name
read_name-Still client none = refuse-Still client 8
read_name-Still client (some size) =
    Held-if directed (byte_of 0 size == 0) _ _ (refuse-Still client 8)
      (bind (read_socket_exact-Still client _) taken)
  where
    taken : (o : Option Bytes) → Still (take_name client o)
    taken none = close_client-Still client
    taken (some bytes) = result _

read_host-Still : (client kind : ℕ) → Still (read_host client kind)
unfolding read_host
read_host-Still client kind =
    Held-if directed (kind == 1) _ _
      (bind (read_socket_exact-Still client 4) (read_address-Still client))
      (Held-if directed (kind == 3) _ _
        (bind (read_socket_exact-Still client 1) (read_name-Still client))
        (Held-if directed (kind == 4) _ _
          (bind (read_socket_exact-Still client 16) (read_address-Still client))
          (refuse-Still client 8)))

read_port-Still : (client : ℕ) (o : Option Bytes) → Still (read_port client o)
unfolding read_port check_port
read_port-Still client none = result none
read_port-Still client (some host) = bind (read_socket_exact-Still client 2) checked
  where
    checked : (o : Option Bytes) → Still (check_port client host o)
    checked none = close_client-Still client
    checked (some bytes) =
        Held-if directed (not (is_valid_forward_port (byte_of 0 bytes * 256 + byte_of 1 bytes))) _ _
          (refuse-Still client 1) (result _)

on_request-Still : (client : ℕ) (o : Option Bytes) → Still (on_request client o)
unfolding on_request
on_request-Still client none = refuse-Still client 1
on_request-Still client (some request) =
    Held-if directed (not (byte_of 0 request == 5) || not (byte_of 2 request == 0)) _ _
      (refuse-Still client 1)
      (Held-if directed (not (byte_of 1 request == 1)) _ _ (refuse-Still client 7)
        (bind (read_host-Still client (byte_of 3 request)) (read_port-Still client)))

on_methods-Still : (client : ℕ) (o : Option Bytes) → Still (on_methods client o)
unfolding on_methods
on_methods-Still client none = close_client-Still client
on_methods-Still client (some methods) = bind (write_socket_exact-Still client _) λ written.
    Held-if directed (not written || not (has_zero methods)) _ _ (close_client-Still client)
      (bind (read_socket_exact-Still client 4) (on_request-Still client))

on_greeting-Still : (client : ℕ) (o : Option Bytes) → Still (on_greeting client o)
unfolding on_greeting
on_greeting-Still client none = close_client-Still client
on_greeting-Still client (some greeting) =
    Held-if directed (not (byte_of 0 greeting == 5) || byte_of 1 greeting == 0) _ _
      (close_client-Still client)
      (bind (read_socket_exact-Still client _) (on_methods-Still client))

pub negotiate-Still : (client : ℕ) → Still (negotiate client)
unfolding negotiate
negotiate-Still client = bind (read_socket_exact-Still client 2) (on_greeting-Still client)

close_channel_internal-Still : (s : SessionState) (c : ℕ) → Still (close_channel_internal s c)
unfolding close_channel_internal
close_channel_internal-Still s c =
    bind (deadline_after-Held directed directed-IgnoresWaits _) λ deadline.
      let held = wait_socket-Held directed directed-IgnoresWaits _ _ deadline in
      bind (retry-Held directed directed-IgnoresWaits _ _ (λ env log. refl) held) λ _.
        bind (retry-Held directed directed-IgnoresWaits _ _ (λ env log. refl) held) λ _.
          bind (retry-Held directed directed-IgnoresWaits _ _ (λ env log. refl) held)
            (λ _. result tt)

close_forward_channel-Still : (id : Bytes) (c : ℕ) → Still (close_forward_channel id c)
unfolding close_forward_channel close_on
close_forward_channel-Still id c = bind look-Still (λ core. closed (lookup id core.sessions))
  where
    closed : (o : Option SessionState) → Still (close_on c o)
    closed none = result tt
    closed (some s) =
        Held-on_pointer directed s.session _ _ (result tt) (λ _. close_channel_internal-Still s c)

exchange-Still :
    (channel : ℕ) (relay : Relay) (o : Option SessionState) → Still (exchange channel relay o)
unfolding exchange write_channel send_eof read_channel test_eof
exchange-Still channel relay none = result _
exchange-Still channel relay (some s) =
    bind (asked (has_pending relay.to_ssh) _ _ _ (λ env log. refl)) λ w.
      bind
        (asked (w.socket_read_closed && (is_drained w.to_ssh && not w.channel_eof_sent)) _ _ _
          (λ env log. refl))
        λ e.
          bind (asked (not e.channel_read_closed && has_room e.to_socket) _ _ _ (λ env log. refl))
            λ r. bind (Held-ask directed _ (λ env log. refl)) (λ reply. result _)
  where
    asked :
        (b : Bool) (c : Call) (f : Reply → Bool → Relay) (q : Relay)
        → ((env : Env) (log : Log) → directed env (c ∷ log) ≡ directed env log)
        → Still (
            if b
            then (ask c >>= λ reply. test_again reply >>= λ blocked. pure (f reply blocked))
            else pure q)
    asked b c f q h =
        Held-if directed b _ _
          (bind (Held-ask directed _ h) (λ r. bind (Held-test_again directed r) (λ t. result _)))
          (result _)

relay_loop-Still : (id : Bytes) (channel socket : ℕ) → Still (relay_loop id channel socket)
unfolding relay_loop relay_round relay_events receive send_out shut_down
relay_loop-Still id channel socket = Held-loop directed _ _ λ relay.
    bind is_stopping-Still λ stopping. Held-if directed (stopping || relay.fatal) _ _ (result _) (
      bind (Held-ask directed _ (λ env log. refl)) λ event.
        Held-if directed (ltb_ℤ event.value (pos 0) && not event.interrupted) _ _ (result _) (
          bind
            (Held-if directed (ltb_ℤ (pos 0) event.value && event.inbound) _ _
              (bind (Held-ask directed _ (λ env log. refl)) (λ r. result _)) (result _))
            λ filled.
              bind
                (Held-if directed
                  (ltb_ℤ (pos 0) event.value && (event.outbound && has_pending filled.to_socket)) _
                  _ (bind (Held-ask directed _ (λ env log. refl)) (λ r. result _)) (result _))
                λ drained. bind look-Still λ core.
                  bind
                    (exchange-Still channel (note_events drained event)
                      (find_authenticated_session core id))
                    λ x.
                      bind
                        (Held-if directed
                          (x.channel_read_closed
                            && (is_drained x.to_socket && not x.socket_write_closed))
                          _ _ (bind (Held-ask directed _ (λ env log. refl)) (λ r. result _))
                          (result _))
                        (λ finished. result _)))

pub after_success-Still :
    (id : Bytes) (client channel : ℕ) (sent : Bool) → Still (after_success id client channel sent)
unfolding after_success relay_forward_connection
after_success-Still id client channel sent =
    Held-if directed (not sent) _ _
      (bind (Held-ask directed _ (λ env log. refl)) (λ _. close_forward_channel-Still id channel))
      (bind
        (bind (relay_loop-Still id channel client) (λ relay.
          bind (Held-ask directed _ (λ env log. refl))
            (λ _. bind (close_forward_channel-Still id channel) (λ _. result relay))))
        (λ _. result tt))
