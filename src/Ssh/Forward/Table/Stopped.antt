-- ===== src/Ssh/Forward/Table/Stopped.antt =====
-- What `StopForwardsForSession` of entry/src/main/cpp/native_ssh_libssh2.cpp stops and leaves.
use mathlib.Core.Path.{subst}
use tabssh_harmonyos.Prelude.{
  sym, ◌⊎◌, ◌≡◌, ◌≢◌, refl, ap, ◌∙◌, Bool, true, false, ◌||◌, List, [], ◌∷◌, none, some, Bytes, All,
  arith, equal, equal_iff, equal_refl, if◌then◌else◌,
}
use tabssh_harmonyos.Prelude.Map.{Map, lookup, erase_if, erase_if-kept, lookup-erase_if}
use tabssh_harmonyos.Ssh.Calls.{Env, Log}
use tabssh_harmonyos.Ssh.Effects.{After, After-bind, After-pure}
use tabssh_harmonyos.Ssh.Forward.Table.{
  ForwardState, is_of, forwards_of, stop_all, stop_forwards_for_session,
}
use tabssh_harmonyos.Ssh.Forward.Table.Ended.{EndsIf, shut, stop_forward_state-Ends}

-- A forward that is stopped holds no listener.
abbrev pub IsClean : ForwardState → Type 0
IsClean s = s.stopped ≡ true → (s.listen_fd ≡ none) × (s.remote_listener ≡ none)

abbrev pub IsStopped : Bytes → ForwardState → Type 0
IsStopped session_id s =
    (s.session_id ≡ session_id)
    × (s.stopped ≡ true)
    × (s.listen_fd ≡ none)
    × (s.remote_listener ≡ none)

abbrev pub has_id : Bytes → List ForwardState → Bool
has_id key [] = false
has_id key (s ∷ states) = equal s.id key || has_id key states

-- The forwards have been ended one after the other.
abbrev pub EndsAll : Env → List ForwardState → Log → Log → Type 0
EndsAll env [] x y = y ≡ x
EndsAll env (s ∷ states) x y = (z : Log) × EndsIf s.stopped env s x z × EndsAll env states z y

-- A forward is in a list.
abbrev pub IsAmong : ForwardState → List ForwardState → Type 0
IsAmong s [] = ⊥
IsAmong s (t ∷ states) = (t ≡ s) ⊎ IsAmong s states

shut-IsStopped :
    (session_id : Bytes) (s : ForwardState) {t : ForwardState}
    → s.session_id ≡ session_id
    → IsClean s
    → t ≡ (if s.stopped then s else shut s)
    → IsStopped session_id t × (t.id ≡ s.id)
shut-IsStopped session_id s {t} e clean h =
    subst (λ u. IsStopped session_id u × (u.id ≡ s.id)) (sym h) (of s.stopped refl)
  where
    of :
        (b : Bool)
        → s.stopped ≡ b
        → IsStopped session_id (if b then s else shut s) × ((if b then s else shut s).id ≡ s.id)
    of true k = ((e, k, (clean k).0, (clean k).1), refl)
    of false k = ((e, refl, refl, refl), refl)

module _ (env : Env) (session_id : Bytes) where
  -- The forwards that have been stopped are these.
  abbrev AllStopped : Log → List ForwardState → List ForwardState → Log → Type 0
  AllStopped log states ts log' =
      All (IsStopped session_id) ts
      × ((key : Bytes) → has_id key ts ≡ has_id key states)
      × EndsAll env states log log'

  stop_all-After :
      (states : List ForwardState) (log : Log)
      → All (λ s. (s.session_id ≡ session_id) × IsClean s) states
      → After (AllStopped log states) (stop_all states env log)
  unfolding stop_all
  stop_all-After [] log h = After-pure (AllStopped log []) [] env log (tt, λ key. refl, refl)
  stop_all-After (s ∷ states) log h =
      let Q = AllStopped log (s ∷ states) in
      After-bind _ Q _ _ env log (stop_forward_state-Ends env s log) λ t l p.
        let k = shut-IsStopped session_id s h.0.0 h.0.1 p.0 in
        After-bind (AllStopped l states) Q _ _ env l (stop_all-After states l h.1) (λ ts l' ks.
          After-pure Q _ env l' (
            (k.0, ks.0),
            λ key.
                ap (λ i. equal i key || has_id key ts) k.1
                ∙ ap (λ c. equal s.id key || c) (ks.1 key),
            (l, p.1, ks.2),
          ))

abbrev pub AllClean : Map ForwardState → Type 0
AllClean forwards = All (λ entry. IsClean entry.1) forwards

forwards_of-All :
    (session_id : Bytes) (forwards : Map ForwardState)
    → AllClean forwards
    → All (λ s. (s.session_id ≡ session_id) × IsClean s) (forwards_of session_id forwards)
unfolding forwards_of
forwards_of-All session_id [] h = tt
forwards_of-All session_id ((key, s) ∷ forwards) h =
    either (equal s.session_id session_id) refl (forwards_of-All session_id forwards h.1)
  where
    either :
        (c : Bool)
        → equal s.session_id session_id ≡ c
        → All (λ s. (s.session_id ≡ session_id) × IsClean s) (forwards_of session_id forwards)
        → All
            (λ s. (s.session_id ≡ session_id) × IsClean s)
            (if c then s ∷ forwards_of session_id forwards else forwards_of session_id forwards)
    either true e rest = (((equal_iff s.session_id session_id).0 e, h.0), rest)
    either false e rest = rest

forwards_of-has_id :
    (session_id key : Bytes) (s : ForwardState) (forwards : Map ForwardState)
    → lookup key forwards ≡ some s
    → s.session_id ≡ session_id
    → has_id s.id (forwards_of session_id forwards) ≡ true
unfolding forwards_of lookup
forwards_of-has_id session_id key s [] h e = absurd (cc)
forwards_of-has_id session_id key s ((k, t) ∷ forwards) h e = ground (
  arith,
  equal_iff k key,
  equal_iff t.session_id session_id,
  equal_refl s.id,
  forwards_of-has_id session_id key s forwards,
)

forwards_of-IsAmong :
    (session_id key : Bytes) (s : ForwardState) (forwards : Map ForwardState)
    → lookup key forwards ≡ some s
    → s.session_id ≡ session_id
    → IsAmong s (forwards_of session_id forwards)
unfolding forwards_of lookup
forwards_of-IsAmong session_id key s [] h e = absurd (cc)
forwards_of-IsAmong session_id key s ((k, t) ∷ forwards) h e = ground (
  arith,
  equal_iff k key,
  equal_iff t.session_id session_id,
  forwards_of-IsAmong session_id key s forwards,
)

-- The forwards of a session are stopped and out of the table, and the others are still there; each has
-- been ended, in the table's order, between the two logs.
pub record StopsAll (env : Env) (session_id : Bytes) (before : Map ForwardState) (log : Log)
    (states : List ForwardState) (after : Map ForwardState) (log' : Log) : Type 0 where
  pub all_ended : EndsAll env (forwards_of session_id before) log log'
  pub all_met :
      (key : Bytes) (s : ForwardState)
      → lookup key before ≡ some s
      → s.session_id ≡ session_id
      → IsAmong s (forwards_of session_id before)
  pub all_stopped : All (IsStopped session_id) states
  pub nothing_missed :
      (key : Bytes) (s : ForwardState)
      → lookup key before ≡ some s
      → s.session_id ≡ session_id
      → has_id s.id states ≡ true
  pub none_left :
      (key : Bytes) (s : ForwardState) → lookup key after ≡ some s → s.session_id ≢ session_id
  pub others_kept :
      (key : Bytes) (s : ForwardState)
      → lookup key before ≡ some s
      → s.session_id ≢ session_id
      → lookup key after ≡ some s

pub stop_forwards_for_session-After :
    (env : Env) (session_id : Bytes) (forwards : Map ForwardState) (log : Log)
    → AllClean forwards
    → After
        (λ o l. StopsAll env session_id forwards log o.0 o.1 l)
        (stop_forwards_for_session session_id forwards env log)
unfolding stop_forwards_for_session is_of
stop_forwards_for_session-After env session_id forwards log clean =
    let Q : List ForwardState × Map ForwardState → Log → Type 0 =
      λ o l. StopsAll env session_id forwards log o.0 o.1 l in
    After-bind (AllStopped env session_id log (forwards_of session_id forwards)) Q _ _ env log
      (stop_all-After env session_id (forwards_of session_id forwards) log
        (forwards_of-All session_id forwards clean))
      λ ts l h.
        After-pure Q (ts, erase_if (is_of session_id) forwards) env l
          (record {
            all_ended = h.2;
            all_met = λ key s e same. forwards_of-IsAmong session_id key s forwards e same;
            all_stopped = h.0;
            nothing_missed =
                λ key s e same. h.1 s.id ∙ forwards_of-has_id session_id key s forwards e same;
            none_left = λ key s e.
                let k = erase_if-kept (is_of session_id) key s forwards e in
                ground (arith, equal_iff s.session_id session_id, k);
            others_kept = λ key s e n.
                lookup-erase_if (is_of session_id) key s forwards e
                  (ground (arith, equal_iff s.session_id session_id));
          })
