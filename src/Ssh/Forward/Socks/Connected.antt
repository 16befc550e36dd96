-- ===== src/Ssh/Forward/Socks/Connected.antt =====
-- What `HandleSocksClient` of entry/src/main/cpp/native_ssh_libssh2.cpp connects its client to.
use tabssh_harmonyos.Prelude.{
  ℕ, ◌≡◌, refl, ap, ◌∙◌, not, ◌⊎◌, inl, inr, List, [], ◌∷◌, ◌++◌, Option, none, some, Bytes, All,
  ◌==◌,
}
use tabssh_harmonyos.Prelude.Int.{ℤ}
use tabssh_harmonyos.Ssh.Calls.{Io, Call, Env, Log, Turn, again, done, loop}
use tabssh_harmonyos.Ssh.Effects.{After, After-bind, After-if, After-pure, After-rounds, InTurn}
use tabssh_harmonyos.Ssh.Effects.Held.{
  Held-ask, Held-bind, Held-pure, Held-if, Held-test_again, deadline_after-Held,
}
use tabssh_harmonyos.Ssh.Effects.Runs.{
  After-ask, After-is_stopping, After-look, After-on_pointer, After-weaken,
}
use tabssh_harmonyos.Ssh.Effects.Settled.{After-run, Held-run}
use tabssh_harmonyos.Ssh.Forward.Socket.{
  direct_null, direct_on, direct_round, direct_found, open_direct_channel,
}
use tabssh_harmonyos.Ssh.Forward.Socks.{Target, negotiate, connect_target, handle_socks_client}
use tabssh_harmonyos.Ssh.Forward.Socks.Directed.{
  directed, directed-IgnoresWaits, Still, remaining-Still, send_socks_reply-Still, negotiate-Still,
  after_success-Still,
}
use tabssh_harmonyos.Ssh.Forward.Socks.Reading.{SocketReadFills, heard}
use tabssh_harmonyos.Ssh.Forward.Socks.Requested.{Requests, negotiate-Requests}
use tabssh_harmonyos.Ssh.State.{SessionState, raw, find_authenticated_session}
use tabssh_harmonyos.Ssh.Trust.Globals.{After-eq}

-- A call that asks for this connection on the session, as the globals have it at some time.
abbrev pub IsTo : Env → Bytes → Bytes → ℕ → ℤ → Call → Type 0
IsTo env session_id host port origin_port c =
    (log : Log) × (s : SessionState) × (find_authenticated_session (env.globals log) session_id
      ≡ some s)
    × (c ≡ Call.channel_direct_tcpip (raw s.session) host port origin_port)

module _ (env : Env) (session_id host : Bytes) (port : ℕ) (origin_port : ℤ)
    (before : List Call) where
  -- All connections asked for since are this one.
  abbrev pub Only : Log → Type 0
  Only log =
      (calls : List Call) × (directed env log ≡ calls ++ before)
      × All (IsTo env session_id host port origin_port) calls

  -- So it stays behind an action that asks for none.
  After-still :
      {A : Type 0} (m : Io A) (log : Log) → Still m → Only log → After (λ _ l. Only l) (m env log)
  After-still m log h (calls, e, all) =
      After-weaken (λ _ l. directed env l ≡ directed env log) (λ _ l. Only l) _
        (λ _ l f. (calls, f ∙ e, all)) (h.at env log)

  direct_null-Only :
      (s : SessionState) (log : Log) → Only log → After (λ _ l. Only l) (direct_null s env log)
  unfolding direct_null
  direct_null-Only s log h =
      After-still (direct_null s) log
        (Held-bind directed _ _ (Held-ask directed _ (λ env log. refl)) λ r.
          Held-bind directed _ _ (Held-test_again directed r) λ b.
            Held-if directed (not b) _ _ (Held-pure directed _) (
              Held-bind directed _ _ (Held-ask directed _ (λ env log. refl))
                (λ _. Held-pure directed _)))
        h

  direct_on-Only :
      (at log : Log) (o : Option SessionState)
      → find_authenticated_session (env.globals at) session_id ≡ o
      → Only log
      → After (λ _ l. Only l) (direct_on host port origin_port o env log)
  unfolding direct_on
  direct_on-Only at log none e h = After-pure (λ _ l. Only l) _ env log h
  direct_on-Only at log (some s) e (calls, f, all) =
      let Q : Turn (Unit {0}) (Option ℕ) → Log → Type 0 = λ _ l. Only l in
      let c = Call.channel_direct_tcpip (raw s.session) host port origin_port in
      let now : Only (c ∷ log) = (c ∷ calls, ap (◌∷◌ c) f, ((at, s, e, refl), all)) in
      After-ask Q env log c _ (
        After-on_pointer Q env (c ∷ log) (env.answer log c).pointer _ _
          (λ _. direct_null-Only s (c ∷ log) now) (λ p _. After-pure Q _ env (c ∷ log) now))

  direct_round-Only :
      (deadline : ℕ) (log : Log)
      → Only log
      → After (λ _ l. Only l) (direct_round session_id host port origin_port deadline env log)
  unfolding direct_round
  direct_round-Only deadline log h =
      let Q : Turn (Unit {0}) (Option ℕ) → Log → Type 0 = λ _ l. Only l in
      After-is_stopping Q env log _ (
        After-if Q (env.stopping log) _ _ env log (λ _. After-pure Q _ env log h)
          λ _.
            After-bind (λ _ l. Only l) Q _ _ env log
              (After-still _ log (remaining-Still deadline) h)
              (λ n l k.
                After-if Q (n == 0) _ _ env l (λ _. After-pure Q _ env l k)
                  (λ _. After-look Q env l _ (direct_on-Only l l _ refl k))))

  in_turn :
      (o : Option (Turn (Unit {0}) (Option ℕ) × Log))
      → After (λ _ l. Only l) o
      → After (InTurn (λ _ l. Only l) (λ _ l. Only l)) o
  in_turn none h = tt
  in_turn (some (again s, l)) h = h
  in_turn (some (done a, l)) h = h

  open_direct_channel-Only :
      (log : Log)
      → Only log
      → After (λ _ l. Only l) (open_direct_channel session_id host port origin_port env log)
  unfolding open_direct_channel direct_found loop
  open_direct_channel-Only log h =
      After-look (λ _ l. Only l) env log _
        (found (find_authenticated_session (env.globals log) session_id))
    where
      found :
          (o : Option SessionState)
          → After (λ _ l. Only l) (direct_found session_id host port origin_port o env log)
      found none = After-pure (λ _ l. Only l) none env log h
      found (some s) =
          After-bind (λ _ l. Only l) (λ _ l. Only l) _ _ env log
            (After-still _ log (deadline_after-Held directed directed-IgnoresWaits _) h)
            (λ deadline l k.
              After-rounds (λ _ l. Only l) (λ _ l. Only l) _ env
                (λ _ l' i. in_turn _ (direct_round-Only deadline l' i)) env.fuel tt l k)

-- What has been asked for on account of a target.
abbrev pub Connects : Env → Bytes → ℤ → List Call → Option Target → Log → Type 0
Connects env session_id origin_port before none log = directed env log ≡ before
Connects env session_id origin_port before (some target) log =
    Only env session_id target.host target.port origin_port before log

connect_target-Connects :
    (env : Env) (session_id : Bytes) (client : ℕ) (origin_port : ℤ) (before : List Call)
    (o : Option Target) (log : Log)
    → directed env log ≡ before
    → After
        (λ _ l. Connects env session_id origin_port before o l)
        (connect_target session_id client origin_port o env log)
unfolding connect_target
connect_target-Connects env session_id client origin_port before none log e =
    After-pure (λ _ l. directed env l ≡ before) tt env log e
connect_target-Connects env session_id client origin_port before (some target) log e =
    let Q : Unit {0} → Log → Type 0 =
      λ _ l. Only env session_id target.host target.port origin_port before l in
    After-bind (λ _ l. Only env session_id target.host target.port origin_port before l) Q _ _ env
      log
      (open_direct_channel-Only env session_id target.host target.port origin_port before log
        ([], e, tt))
      (λ opened l h.
        After-on_pointer Q env l opened _ _
          (λ _.
            After-still env session_id target.host target.port origin_port before _ l
              (Held-bind directed _ _
                (Held-bind directed _ _ (send_socks_reply-Still client 5)
                  (λ _. Held-ask directed _ (λ env log. refl)))
                (λ _. Held-pure directed tt))
              h)
          (λ channel _.
            After-still env session_id target.host target.port origin_port before _ l
              (Held-bind directed _ _ (send_socks_reply-Still client 0)
                (λ sent. after_success-Still session_id client channel sent))
              h))

-- No connection has been asked for; or the bytes received from the client in the negotiation, in which
-- none was asked for, are a request for a target, and since then libssh2 has been asked to connect to
-- this one only.
abbrev pub Serves : Env → Bytes → ℕ → ℤ → Log → Log → Type 0
Serves env session_id client origin_port log log' =
    (directed env log' ≡ directed env log)
    ⊎ ((target : Target) × (request : Bytes) × (mid : Log) × (negotiate client env log
          ≡ some (some target, mid))
        × (directed env mid ≡ directed env log)
        × (heard client env mid ≡ heard client env log ++ request)
        × Requests env request target
        × Only env session_id target.host target.port origin_port (directed env log) log')

handle_socks_client-After :
    (env : Env) (session_id : Bytes) (client : ℕ) (origin_port : ℤ) (log : Log)
    → SocketReadFills env
    → After
        (λ _ l. Serves env session_id client origin_port log l)
        (handle_socks_client session_id client origin_port env log)
unfolding handle_socks_client
handle_socks_client-After env session_id client origin_port log fills =
    After-run Q (negotiate client) _ env log (λ o mid e.
      served o mid e (Held-run directed (negotiate client) env log (negotiate-Still client) e))
  where
    Q : Unit {0} → Log → Type 0
    Q _ l = Serves env session_id client origin_port log l

    served :
        (o : Option Target) (mid : Log)
        → negotiate client env log ≡ some (o, mid)
        → directed env mid ≡ directed env log
        → After Q (connect_target session_id client origin_port o env mid)
    served none mid e d =
        After-weaken (λ _ l. Connects env session_id origin_port (directed env log) none l) Q _
          (λ _ l h. inl h)
          (connect_target-Connects env session_id client origin_port (directed env log) none mid d)
    served (some target) mid e d =
        let (request, h, r) = negotiate-Requests env client log fills e in
        After-weaken (λ _ l. Connects env session_id origin_port (directed env log) (some target) l)
          Q _ (λ _ l only. inr (target, request, mid, e, d, h, r, only))
          (connect_target-Connects env session_id client origin_port (directed env log)
            (some target) mid d)

-- Whatever a client sends and however its bytes arrive, when the SOCKS server has served it, libssh2
-- has been asked for no connection on its account; or it has been asked, after the negotiation, for
-- connections on the forward's session, as authenticated at some time, to one target only, with the client's
-- port as the origin; and the bytes received in the negotiation are a greeting that offers no
-- authentication and a request to connect to that target, by name, IPv4 or IPv6 address, with a port
-- from 1 to 65535; if `recv` hands out as many bytes as it reports.
pub handle_socks_client-Serves :
    (env : Env) (session_id : Bytes) (client : ℕ) (origin_port : ℤ) (log : Log) {log' : Log}
    → SocketReadFills env
    → handle_socks_client session_id client origin_port env log ≡ some (tt, log')
    → Serves env session_id client origin_port log log'
handle_socks_client-Serves env session_id client origin_port log fills e =
    After-eq (λ _ l. Serves env session_id client origin_port log l) _ _ _
      (handle_socks_client-After env session_id client origin_port log fills) e
