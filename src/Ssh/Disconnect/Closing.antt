-- ===== src/Ssh/Disconnect/Closing.antt =====
-- How the second step of `Disconnect` of entry/src/main/cpp/native_ssh_libssh2.cpp closes the channels and
-- the network of a session.
use mathlib.Core.Path.{subst}
use tabssh_harmonyos.Prelude.{
  ℕ, ◌+◌, ◌*◌, refl, sym, Bool, false, List, [], ◌∷◌, ◌++◌, Option, none, some, Bytes,
  if◌then◌else◌,
}
use tabssh_harmonyos.Prelude.Map.{Map}
use tabssh_harmonyos.Ssh.Calls.{Call, Reply, Env, Log, Io, on_pointer, pure}
use tabssh_harmonyos.Ssh.Channel.{close_channel_internal, wait_for_channel}
use tabssh_harmonyos.Ssh.Disconnect.{belongs_to, close_channels}
use tabssh_harmonyos.Ssh.Effects.{After, After-bind, After-if, After-pure}
use tabssh_harmonyos.Ssh.Effects.Held.{Held, Held-pure, wait_socket-Held}
use tabssh_harmonyos.Ssh.Effects.Runs.{After-ask, After-weaken}
use tabssh_harmonyos.Ssh.Effects.Settled.{deeds, deeds-IgnoresWaits, Settled, retry-Settled}
use tabssh_harmonyos.Ssh.Effects.Tasks.{
  Task, once, start_clock, until_settled, Performs, Performs-append, IsTimeless,
  Performs-append_timeless, After-deadline, After-retry,
}
use tabssh_harmonyos.Ssh.Handshake.{
  wait_on, wait_closing, release_sftp, release_session, release_socket, release_network,
  close_network,
}
use tabssh_harmonyos.Ssh.State.{SessionState, ChannelState}

-- A channel is closed within two seconds: the end of its input, its closing and its release, each
-- repeated until it is settled.
abbrev pub channel_tasks : SessionState → ℕ → List Task
channel_tasks session channel =
    start_clock 2000
    ∷ until_settled (Call.channel_send_eof channel) (wait_for_channel session)
    ∷ until_settled (Call.channel_close channel) (wait_for_channel session)
    ∷ until_settled (Call.channel_free channel) (wait_for_channel session)
    ∷ []

-- The channels of a session in the map's order.
abbrev pub channels_tasks : Bytes → SessionState → Map ChannelState → List Task
channels_tasks id session [] = []
channels_tasks id session ((key, channel) ∷ channels) =
    if belongs_to id key channel
    then channel_tasks session channel.channel ++ channels_tasks id session channels
    else channels_tasks id session channels

abbrev pub sftp_tasks : (ℕ → Io Bool) → Option ℕ → List Task
sftp_tasks wait none = []
sftp_tasks wait (some p) = until_settled (Call.sftp_shutdown p) wait ∷ []

abbrev pub session_tasks : (ℕ → Io Bool) → Option ℕ → List Task
session_tasks wait none = []
session_tasks wait (some p) =
    until_settled (Call.session_disconnect p) wait ∷ until_settled (Call.session_free p) wait ∷ []

abbrev pub socket_tasks : Option ℕ → List Task
socket_tasks none = []
socket_tasks (some fd) = once (Call.close_fd fd) ∷ []

-- The network of a session: within two seconds the SFTP session is shut down and the session
-- disconnected and freed, and then the socket is closed, as far as they are there.
abbrev pub network_tasks : SessionState → List Task
network_tasks s =
    start_clock 2000
    ∷ (sftp_tasks (wait_closing s) s.sftp
        ++ (session_tasks (wait_closing s) s.session ++ socket_tasks s.socket_fd))

sftp_tasks-IsTimeless : (wait : ℕ → Io Bool) (o : Option ℕ) → IsTimeless (sftp_tasks wait o)
sftp_tasks-IsTimeless wait none = tt
sftp_tasks-IsTimeless wait (some p) = tt

session_tasks-IsTimeless : (wait : ℕ → Io Bool) (o : Option ℕ) → IsTimeless (session_tasks wait o)
session_tasks-IsTimeless wait none = tt
session_tasks-IsTimeless wait (some p) = tt

wait_on-Held : (session fd : Option ℕ) (deadline : ℕ) → Held deeds (wait_on session fd deadline)
unfolding wait_on
wait_on-Held none none deadline = Held-pure deeds false
wait_on-Held none (some fd) deadline = Held-pure deeds false
wait_on-Held (some p) none deadline = Held-pure deeds false
wait_on-Held (some p) (some fd) deadline = wait_socket-Held deeds deeds-IgnoresWaits p fd deadline

module _ (env : Env) where
  abbrev Done : List Task → ℕ → Log → Log → Type 0
  Done = Performs env

  close_channel_internal-Performs :
      (session : SessionState) (channel : ℕ) (log : Log)
      → After
          (λ _ l. Done (channel_tasks session channel) 0 log l)
          (close_channel_internal session channel env log)
  unfolding close_channel_internal
  close_channel_internal-Performs session channel log =
      let deadline = (env.answer log Call.clock_now).number + 2000 * 1000000 in
      let Q : Unit {0} → Log → Type 0 = λ _ l. Done (channel_tasks session channel) 0 log l in
      let held = wait_socket-Held deeds deeds-IgnoresWaits _ _ deadline in
      After-deadline Q env log 2000 _ (
        After-retry Q env (Call.clock_now ∷ log) (Call.channel_send_eof channel) _ _ refl held
          (λ o l p. After-retry Q env l (Call.channel_close channel) _ _ refl held (λ o' l' p'.
            After-retry Q env l' (Call.channel_free channel) _ _ refl held (λ o'' l'' p''.
              After-pure Q tt env l'' (o, l, p, (o', l', p', (o'', l'', p'', refl)))))))

  pub close_channels-Performs :
      (id : Bytes) (session : SessionState) (channels : Map ChannelState) (log : Log)
      → After
          (λ _ l. (d : ℕ) → Done (channels_tasks id session channels) d log l)
          (close_channels id session channels env log)
  unfolding close_channels
  close_channels-Performs id session [] log = After-pure _ tt env log (λ d. refl)
  close_channels-Performs id session ((key, c) ∷ channels) log =
      let us = channels_tasks id session channels in
      let ts = channel_tasks session c.channel in
      let Q : Bool → Unit {0} → Log → Type 0 =
        λ b _ l. (d : ℕ) → Done (if b then ts ++ us else us) d log l in
      let b = belongs_to id key c in
      After-if (Q b) b _ _ env log
        (λ h.
          After-bind (λ _ l. Done ts 0 log l) (Q b) _ _ env log
            (close_channel_internal-Performs session c.channel log)
            (λ _ l p.
              After-weaken (λ _ l'. (d : ℕ) → Done us d l l') (Q b) _
                (λ _ l' q d.
                  subst (λ x. Done (if x then ts ++ us else us) d log l') (sym h)
                    (Performs-append env ts us d log l l' p q))
                (close_channels-Performs id session channels l)))
        (λ h.
          subst (λ x. After (Q x) (close_channels id session channels env log)) (sym h)
            (close_channels-Performs id session channels log))

  sftp-Performs :
      (wait : ℕ → Io Bool) (o : Option ℕ) (d : ℕ) (log : Log)
      → Held deeds (wait d)
      → After
          (λ _ l. Done (sftp_tasks wait o) d log l)
          (on_pointer o (pure tt) (λ p. release_sftp p (wait d)) env log)
  unfolding release_sftp on_pointer
  sftp-Performs wait none d log held = After-pure _ tt env log refl
  sftp-Performs wait (some p) d log held =
      let Q : Unit {0} → Log → Type 0 = λ _ l. Done (sftp_tasks wait (some p)) d log l in
      After-retry Q env log (Call.sftp_shutdown p) _ _ refl held
        (λ o l q. After-pure Q tt env l (o, l, q, refl))

  session-Performs :
      (wait : ℕ → Io Bool) (o : Option ℕ) (d : ℕ) (log : Log)
      → Held deeds (wait d)
      → After
          (λ _ l. Done (session_tasks wait o) d log l)
          (on_pointer o (pure tt) (λ p. release_session p (wait d)) env log)
  unfolding release_session on_pointer
  session-Performs wait none d log held = After-pure _ tt env log refl
  session-Performs wait (some p) d log held =
      let Q : Unit {0} → Log → Type 0 = λ _ l. Done (session_tasks wait (some p)) d log l in
      After-bind
        (λ _ l'.
          (o : Option Reply) × (l : Log) × Settled env (Call.session_disconnect p) (wait d) log o l
          × ((o' : Option Reply) × Settled env (Call.session_free p) (wait d) l o' l'))
        Q _ _ env log
        (After-retry _ env log (Call.session_disconnect p) _ _ refl held (λ o l q.
          After-weaken (λ o' l'. Settled env (Call.session_free p) (wait d) l o' l') _ _
            (λ o' l' q'. (o, l, q, (o', q')))
            (retry-Settled env (Call.session_free p) (wait d) l refl held)))
        (λ _ l' (o, l, q, (o', q')). After-pure Q tt env l' (o, l, q, (o', l', q', refl)))

  socket-Performs :
      (o : Option ℕ) (d : ℕ) (log : Log)
      → After (λ _ l. Done (socket_tasks o) d log l) (on_pointer o (pure tt) release_socket env log)
  unfolding release_socket on_pointer
  socket-Performs none d log = After-pure _ tt env log refl
  socket-Performs (some fd) d log =
      let Q : Unit {0} → Log → Type 0 = λ _ l. Done (socket_tasks (some fd)) d log l in
      After-ask Q env log (Call.close_fd fd) _ (After-pure Q tt env (Call.close_fd fd ∷ log) refl)

  pub close_network-Performs :
      (s : SessionState) (d : ℕ) (log : Log)
      → After (λ _ l. Done (network_tasks s) d log l) (close_network s env log)
  unfolding close_network release_network wait_closing
  close_network-Performs s d log =
      let c = Call.clock_now ∷ log in
      let t = (env.answer log Call.clock_now).number + 2000 * 1000000 in
      let w = wait_closing s in
      let held = wait_on-Held s.session s.socket_fd t in
      let last = socket_tasks s.socket_fd in
      let Q : Unit {0} → Log → Type 0 = λ _ l. Done (network_tasks s) d log l in
      After-bind Q (λ _ l. Done (network_tasks s) d log l) _ _ env log
        (After-deadline Q env log 2000 _ (
          After-bind _ Q _ _ env c (sftp-Performs w s.sftp t c held) (λ _ l p.
            After-bind _ Q _ _ env l (session-Performs w s.session t l held) (λ _ l' p'.
              After-weaken (λ _ l''. Done last t l' l'') Q _
                (λ _ l'' p''.
                  Performs-append_timeless env (sftp_tasks w s.sftp)
                    (session_tasks w s.session ++ last) t c l l'' (sftp_tasks-IsTimeless w s.sftp) p
                    (Performs-append_timeless env (session_tasks w s.session) last t l l' l''
                      (session_tasks-IsTimeless w s.session) p' p''))
                (socket-Performs s.socket_fd t l')))))
        (λ _ l p. After-pure (λ _ l. Done (network_tasks s) d log l) _ env l p)
