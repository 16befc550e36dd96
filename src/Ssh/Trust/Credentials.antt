-- ===== src/Ssh/Trust/Credentials.antt =====
-- What `Connect` of entry/src/main/cpp/native_ssh_libssh2.cpp sends, and when.
use tabssh_harmonyos.Prelude.{
  ℕ, ◌<◌, ◌≡◌, ◌≢◌, [], refl, ◌∙◌, ap, Bool, true, not, ◌++◌, Option, none, some, arith, replicate,
}
use tabssh_harmonyos.Prelude.Int.{pos, eqb_ℤ}
use tabssh_harmonyos.Json.Result.{NativeResult}
use tabssh_harmonyos.Profile.{ProfileConfig, invalid_profile_result}
use tabssh_harmonyos.Ssh.Handshake.{ensure_handshake}
use tabssh_harmonyos.Ssh.Authenticate.{userauth, after_userauth, send_credentials, authenticate}
use tabssh_harmonyos.Ssh.Calls.{Call, Reply, Env, Log, Io}
use tabssh_harmonyos.Ssh.Effects.{
  is_credential, sent, After, After-bind, After-if, After-pure, InTurnQ, InTurnQ-Any, Quiet,
  Quiet-pure, Quiet-after, Quiet-ask, Quiet-test_again, Quiet-either, Silent, Any,
}
use tabssh_harmonyos.Ssh.Effects.Sending.{
  Repeats, Sending, Sending-Quiet, Sending-ask, Sending-bind, Sending-if, Sending-either,
  Sending-loop,
}
use tabssh_harmonyos.Ssh.Network.{retry, retry_round}
use tabssh_harmonyos.Ssh.Session.{unconfirmed, after_ensure, connect_session}
use tabssh_harmonyos.Ssh.State.{SessionState, raw}
use tabssh_harmonyos.Ssh.Trust.KeyCheck.{IsTrusted, ensure_handshake-IsTrusted}
use tabssh_harmonyos.Ssh.Trust.Silence.{
  deadline_after-Silent, wait_socket-Silent, session_error-Silent,
}

userauth_credential : (s : ℕ) (p : ProfileConfig) → is_credential (userauth s p) ≡ true
unfolding userauth is_credential
userauth_credential s p = ground arith

retry_round-Sending :
    (c : Call) (wait : Io Bool)
    → is_credential c ≡ true
    → Silent wait
    → Sending c (InTurnQ Any) (retry_round c wait)
unfolding retry_round
retry_round-Sending c wait h w = Sending-bind c Any _ _ (Sending-ask c h) λ r _.
    Sending-bind c Any _ _ (Sending-Quiet c _ (Quiet-test_again r)) λ b _.
      Sending-if c (not b) _ _ (Sending-Quiet c _ (Quiet-pure _ tt)) (
        Sending-bind c Any _ _ (Sending-Quiet c _ w)
          λ ready _. Sending-Quiet c _ (Quiet-pure _ (InTurnQ-Any _)))

retry-Sending :
    (c : Call) (wait : Io Bool)
    → is_credential c ≡ true
    → Silent wait
    → Sending c Any (retry c wait)
unfolding retry
retry-Sending c wait h w = Sending-loop c Any _ tt (λ _. retry_round-Sending c wait h w)

-- The session that is left differs from `s` in its authentication at most.
record Follows (s : SessionState) (o : NativeResult × SessionState) : Type 0 where
  trusted : IsTrusted o.1
  same_profile : o.1.profile ≡ s.profile
  same_session : o.1.session ≡ s.session
  confirmed : o.1.host_key_confirmed ≡ true
  entered_if_ok : o.0.ok ≡ true → o.1.authenticated ≡ true

module _ (s : SessionState) (trusted : IsTrusted s) (confirmed : s.host_key_confirmed ≡ true) where
  abbrev credentials : Call
  credentials = userauth (raw s.session) s.profile

  unchanged : (r : NativeResult) → (r.ok ≡ true → s.authenticated ≡ true) → Follows s (r, s)
  unchanged r h = record {
    trusted = trusted;
    same_profile = refl;
    same_session = refl;
    confirmed = confirmed;
    entered_if_ok = h;
  }

  entered : (r : NativeResult) → Follows s (r, record s { authenticated = true })
  entered r = record {
    trusted = ground arith;
    same_profile = refl;
    same_session = refl;
    confirmed = confirmed;
    entered_if_ok = λ _. refl;
  }

  after_userauth-Follows : (r : Option Reply) → Quiet (Follows s) (after_userauth s r)
  unfolding after_userauth is_credential
  after_userauth-Follows none = Quiet-pure _ (unchanged _ (λ h. cc))
  after_userauth-Follows (some r) =
      Quiet-either (not (eqb_ℤ r.value (pos 0))) _ _
        (Quiet-after _ _ (session_error-Silent _ _) (λ m. Quiet-pure _ (unchanged _ (λ h. cc))))
        (Quiet-after _ _ (Quiet-ask _ refl) (λ _. Quiet-pure _ (entered _)))

  send_credentials-Sending : Sending credentials (Follows s) (send_credentials s)
  unfolding send_credentials
  send_credentials-Sending =
      Sending-bind credentials Any _ _ (Sending-Quiet credentials _ (deadline_after-Silent _))
        λ t _.
          Sending-bind credentials Any _ _
            (retry-Sending credentials _ (userauth_credential (raw s.session) s.profile)
              (wait_socket-Silent _ _ t))
            λ r _. Sending-Quiet credentials _ (after_userauth-Follows r)

  authenticate-Sending : Sending credentials (Follows s) (authenticate s)
  unfolding authenticate
  authenticate-Sending =
      Sending-either credentials s.authenticated _ _
        (λ h. Sending-Quiet credentials _ (Quiet-pure _ (unchanged _ (λ _. h))))
        (λ _. send_credentials-Sending)

-- All credentials sent since a log are those of one session; if there are any, its handshake is
-- complete and its host key is confirmed, known, and the one that its profile expects.
pub record Sends (s : SessionState) (before after : Log) : Type 0 where
  pub times : ℕ
  pub only_these : sent after ≡ replicate times (userauth (raw s.session) s.profile) ++ sent before
  pub only_confirmed : 0 < times → s.host_key_confirmed ≡ true
  pub only_expected : 0 < times → s.profile.expected_host_key ≡ s.observed_host_key
  pub only_known : 0 < times → s.observed_host_key ≢ []
  pub only_handshaken : 0 < times → s.handshake_complete ≡ true

abbrev pub Checked : Log → NativeResult × SessionState → Log → Type 0
Checked log o log' = IsTrusted o.1 × Sends o.1 log log' × (o.0.ok ≡ true → o.1.authenticated ≡ true)

Sends-nothing : (s : SessionState) (x y : Log) → sent y ≡ sent x → Sends s x y
Sends-nothing s x y e = record {
  times = 0;
  only_these = e;
  only_confirmed = λ h. absurd (omega arith);
  only_expected = λ h. absurd (omega arith);
  only_known = λ h. absurd (omega arith);
  only_handshaken = λ h. absurd (omega arith);
}

of_Sending :
    (s : SessionState) (x : Log) (o : Option ((NativeResult × SessionState) × Log)) (z : Log)
    → sent z ≡ sent x
    → After (λ a l. Follows s a × Repeats (userauth (raw s.session) s.profile) (sent z) (sent l)) o
    → After (Checked x) o
of_Sending s x none z e h = tt
of_Sending s x (some ((r, t), l)) z e (f, (k, g)) = (
  f.trusted,
  record {
    times = k;
    only_these =
        rw (f.same_profile, f.same_session)
          (g ∙ ap (◌++◌ (replicate k (userauth (raw s.session) s.profile))) e);
    only_confirmed = λ _. f.confirmed;
    only_expected = λ _. f.trusted.key_expected f.confirmed;
    only_known = λ _. f.trusted.key_known f.confirmed;
    only_handshaken = λ _. f.trusted.handshaken f.confirmed;
  },
  f.entered_if_ok,
)

unconfirmed_fails : (s : SessionState) → (unconfirmed s).ok ≡ true → s.authenticated ≡ true
unfolding unconfirmed
unconfirmed_fails s h = ground arith

after_ensure-Checked :
    (env : Env) (x z : Log) (o : NativeResult × SessionState)
    → IsTrusted o.1
    → sent z ≡ sent x
    → After (Checked x) (after_ensure o env z)
unfolding after_ensure
after_ensure-Checked env x z (r, s) t e =
    let stop = Sends-nothing s x z e in
    After-if (Checked x) (not r.ok) _ _ env z
      (λ h. After-pure _ _ env z (t, stop, λ k. ground arith))
      λ _.
        After-if (Checked x) (not s.host_key_confirmed) _ _ env z
          (λ _. After-pure _ _ env z (t, stop, unconfirmed_fails s))
          λ h. of_Sending s x _ z e ((authenticate-Sending s t (ground arith)).at env z)

-- `Connect` on a trusted session.
pub connect_session-Checked :
    (env : Env) (s : SessionState) (log : Log)
    → IsTrusted s
    → After (Checked log) (connect_session s env log)
unfolding connect_session
connect_session-Checked env s log t =
    After-if (Checked log) (not (invalid_profile_result s.profile).ok) _ _ env log
      (λ h. After-pure _ _ env log (t, Sends-nothing s log log refl, λ k. ground arith))
      λ _.
        After-bind _ (Checked log) (ensure_handshake s) after_ensure env log
          ((ensure_handshake-IsTrusted s t).at env log)
          (λ o z p. after_ensure-Checked env log z o p.0 p.1)
