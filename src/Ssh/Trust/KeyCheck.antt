-- ===== src/Ssh/Trust/KeyCheck.antt =====
-- `EnsureHandshake` of entry/src/main/cpp/native_ssh_libssh2.cpp confirms a host key only against the
-- fingerprint that the profile expects, and sends no credentials.
use tabssh_harmonyos.Prelude.{
  ℕ, ◌≡◌, ◌≢◌, refl, Bool, true, false, not, [], Option, none, some, Bytes, arith,
}
use tabssh_harmonyos.Prelude.Int.{pos, eqb_ℤ}
use tabssh_harmonyos.Fingerprint.Compare.{constant_time_equal_iff}
use tabssh_harmonyos.Json.Result.{NativeResult}
use tabssh_harmonyos.Ssh.Calls.{Reply, KeyType, Io, ◌>>=◌}
use tabssh_harmonyos.Ssh.Effects.{
  is_credential, Quiet, Quiet-pure, Quiet-bind, Quiet-if, Silent, Silent-pure, Quiet-ask, Any,
  Quiet-after, Quiet-either, Quiet-on_pointer, silent_rules, quiet_rules,
}
use tabssh_harmonyos.Ssh.Handshake.{
  key_type_of, fingerprint, observe, observe_hash, capture_host_key, wait_on, wait_closing,
  release_sftp, release_session, release_socket, release_network, closed, close_network, close_with,
  finish_handshake, after_handshake, start_handshake, allocation_failed, connected_tcp,
  ensure_handshake,
}
use tabssh_harmonyos.Ssh.State.{SessionState}
use tabssh_harmonyos.Ssh.Trust.Silence.{
  deadline_after-Silent, wait_socket-Silent, retry-Silent, session_error-Silent, connect_tcp-Silent,
}

-- A confirmed key is the one that the profile expects, and only a session with a confirmed key is
-- authenticated.
pub record IsTrusted (s : SessionState) : Type 0 where
  pub key_expected : s.host_key_confirmed ≡ true → s.profile.expected_host_key ≡ s.observed_host_key
  pub key_known : s.host_key_confirmed ≡ true → s.observed_host_key ≢ []
  pub handshaken : s.host_key_confirmed ≡ true → s.handshake_complete ≡ true
  pub key_first : s.authenticated ≡ true → s.host_key_confirmed ≡ true

observe-IsTrusted :
    (s : SessionState) (hash : Bytes) (t : KeyType)
    → s.handshake_complete ≡ true
    → s.authenticated ≡ false
    → IsTrusted (observe s hash t)
unfolding observe
observe-IsTrusted s hash t h a =
    ground (arith, constant_time_equal_iff s.profile.expected_host_key (fingerprint hash))

-- Before a handshake nothing is confirmed and nobody is authenticated.
abbrev IsFresh : SessionState → Type 0
IsFresh s = (s.host_key_confirmed ≡ false) × (s.authenticated ≡ false)

IsFresh-IsTrusted : (s : SessionState) → IsFresh s → IsTrusted s
IsFresh-IsTrusted s f = ground arith

IsTrusted-IsFresh : (s : SessionState) → IsTrusted s → s.handshake_complete ≡ false → IsFresh s
IsTrusted-IsFresh s t h = ground arith

abbrev pub OutcomeIsTrusted : NativeResult × SessionState → Type 0
OutcomeIsTrusted o = IsTrusted o.1

key_type_of-Silent : (key : Reply) → Silent (key_type_of key)
unfolding key_type_of
key_type_of-Silent key = record { at = λ env log. (tt, refl) }

observe_hash-IsTrusted :
    (s : SessionState) (key hash : Reply)
    → s.handshake_complete ≡ true
    → IsFresh s
    → Quiet (λ r. IsTrusted r.1) (observe_hash s key hash)
unfolding observe_hash
observe_hash-IsTrusted s key hash h f =
    Quiet-on_pointer hash.pointer _ _ (Quiet-pure _ (IsFresh-IsTrusted s f)) λ _.
      Quiet-after _ _ (key_type_of-Silent key)
        (λ t. Quiet-pure _ (observe-IsTrusted s hash.bytes t h f.1))

capture_host_key-IsTrusted :
    (session : ℕ) (s : SessionState)
    → s.handshake_complete ≡ true
    → IsFresh s
    → Quiet (λ r. IsTrusted r.1) (capture_host_key session s)
unfolding capture_host_key is_credential
capture_host_key-IsTrusted session s h f =
    let t = IsFresh-IsTrusted s f in
    let o = λ (key hash : Reply). observe_hash-IsTrusted s key hash h f in
    search (quiet_rules, silent_rules, t, o) depth 8

wait_on-Silent : (a b : Option ℕ) (t : ℕ) → Silent (wait_on a b t)
unfolding wait_on
wait_on-Silent (some a) (some b) t = wait_socket-Silent a b t
wait_on-Silent (some a) none t = Silent-pure false
wait_on-Silent none _ t = Silent-pure false

pub wait_closing-Silent : (s : SessionState) (t : ℕ) → Silent (wait_closing s t)
wait_closing-Silent s t = unfold wait_closing in wait_on-Silent s.session s.socket_fd t

release_sftp-Silent : (p : ℕ) (w : Io Bool) → Silent w → Silent (release_sftp p w)
unfolding release_sftp is_credential
release_sftp-Silent p w h = search (silent_rules, retry-Silent)

release_session-Silent : (p : ℕ) (w : Io Bool) → Silent w → Silent (release_session p w)
unfolding release_session is_credential
release_session-Silent p w h = search (silent_rules, retry-Silent) depth 6

release_socket-Silent : (p : ℕ) → Silent (release_socket p)
unfolding release_socket is_credential
release_socket-Silent p = search silent_rules

release_network-Silent : (s : SessionState) → Silent (release_network s)
unfolding release_network
release_network-Silent s =
    search
      (
        silent_rules, deadline_after-Silent, wait_closing-Silent, release_sftp-Silent,
        release_session-Silent, release_socket-Silent,
      )
      depth 8

closed-IsTrusted : (s : SessionState) → IsTrusted (closed s)
unfolding closed
closed-IsTrusted s = ground arith

pub close_network-IsTrusted : (s : SessionState) → Quiet IsTrusted (close_network s)
unfolding close_network
close_network-IsTrusted s =
    Quiet-bind Any _ _ _ (release_network-Silent s) (λ _ _. Quiet-pure _ (closed-IsTrusted s))

close_with-IsTrusted :
    (r : NativeResult) (s : SessionState) → Quiet OutcomeIsTrusted (close_with r s)
unfolding close_with
close_with-IsTrusted r s =
    Quiet-bind IsTrusted _ _ _ (close_network-IsTrusted s) (λ s' t. Quiet-pure _ t)

finish_handshake-IsTrusted :
    (r : Bool × SessionState) → IsTrusted r.1 → Quiet OutcomeIsTrusted (finish_handshake r)
unfolding finish_handshake
finish_handshake-IsTrusted (true, s) t = Quiet-pure _ t
finish_handshake-IsTrusted (false, s) t = close_with-IsTrusted _ s

completed-IsTrusted :
    (session : ℕ) (s : SessionState)
    → IsFresh s
    → Quiet OutcomeIsTrusted
        (capture_host_key session (record s { handshake_complete = true }) >>= finish_handshake)
completed-IsTrusted session s f =
    Quiet-bind (λ r. IsTrusted r.1) _ _ _
      (capture_host_key-IsTrusted session (record s { handshake_complete = true }) refl f)
      finish_handshake-IsTrusted

after_handshake-IsTrusted :
    (session : ℕ) (s : SessionState) (r : Option Reply)
    → IsFresh s
    → Quiet OutcomeIsTrusted (after_handshake session s r)
unfolding after_handshake
after_handshake-IsTrusted session s none f = close_with-IsTrusted _ s
after_handshake-IsTrusted session s (some r) f =
    Quiet-either (not (eqb_ℤ r.value (pos 0))) _ _
      (Quiet-after _ _ (session_error-Silent _ _) (λ m. close_with-IsTrusted _ s))
      (completed-IsTrusted session s f)

start_handshake-IsTrusted :
    (fd : ℕ) (s : SessionState) (session : ℕ)
    → IsFresh s
    → Quiet OutcomeIsTrusted (start_handshake fd s session)
unfolding start_handshake is_credential
start_handshake-IsTrusted fd s session f = Quiet-after _ _ (Quiet-ask _ refl) λ _.
    Quiet-after _ _ (deadline_after-Silent _) λ t.
      Quiet-after _ _ (retry-Silent _ _ refl (wait_socket-Silent session fd t))
        λ r. after_handshake-IsTrusted session _ r f

allocation_failed-IsTrusted :
    (fd : ℕ) (s : SessionState) → IsFresh s → Quiet OutcomeIsTrusted (allocation_failed fd s)
unfolding allocation_failed is_credential
allocation_failed-IsTrusted fd s f =
    Quiet-after _ _ (Quiet-ask _ refl) (λ _. Quiet-pure _ (IsFresh-IsTrusted _ f))

connected_tcp-IsTrusted :
    (s : SessionState) (c : Option ℕ × Bytes)
    → IsFresh s
    → Quiet OutcomeIsTrusted (connected_tcp s c)
unfolding connected_tcp is_credential
connected_tcp-IsTrusted s (none, e) f = Quiet-pure _ (IsFresh-IsTrusted _ f)
connected_tcp-IsTrusted s (some fd, e) f = Quiet-after _ _ (Quiet-ask _ refl) λ r.
    Quiet-on_pointer r.pointer _ _ (allocation_failed-IsTrusted fd s f)
      (λ p. start_handshake-IsTrusted fd s p f)

-- From a trusted session `EnsureHandshake` leads to a trusted session, and sends no credentials.
pub ensure_handshake-IsTrusted :
    (s : SessionState) → IsTrusted s → Quiet OutcomeIsTrusted (ensure_handshake s)
unfolding ensure_handshake
ensure_handshake-IsTrusted s t =
    Quiet-if s.handshake_complete _ _ (λ _. Quiet-pure _ t)
      λ h.
        Quiet-after _ _ (connect_tcp-Silent _ _ _)
          (λ c. connected_tcp-IsTrusted s c (IsTrusted-IsFresh s t h))
