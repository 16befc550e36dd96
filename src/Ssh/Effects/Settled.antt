-- ===== src/Ssh/Effects/Settled.antt =====
-- What the loops of entry/src/main/cpp/native_ssh_libssh2.cpp do that repeat a call of libssh2 while its
-- answer is EAGAIN, and sequences of such loops and of single calls.
use tabssh_harmonyos.Prelude.{
  ℕ, suc, ◌≡◌, refl, ap, ◌∙◌, Bool, true, false, not, [], ◌∷◌, ◌++◌, Option, none, some, arith,
  replicate, if◌then◌else◌,
}
use tabssh_harmonyos.Ssh.Calls.{
  Call, Reply, Env, Log, Io, continue, ◌>>=◌, is_again, again, done, loop,
}
use tabssh_harmonyos.Ssh.Effects.{After, After-if, After-pure, After-rounds, InTurn}
use tabssh_harmonyos.Ssh.Effects.Held.{View, Held, IgnoresWaits}
use tabssh_harmonyos.Ssh.Effects.Runs.{After-ask, After-test}
use tabssh_harmonyos.Ssh.Network.{retry_round, retry}

-- The calls by which the program waits, reads the clock and asks for an error.
abbrev pub is_wait : Call → Bool
is_wait Call.clock_now = true
is_wait (Call.poll fd i o t) = true
is_wait (Call.block_directions s) = true
is_wait (Call.last_error s) = true
is_wait (Call.last_errno s) = true
is_wait _ = false

-- All other calls.
abbrev pub deeds : View Log
deeds env [] = []
deeds env (c ∷ log) = if is_wait c then deeds env log else c ∷ deeds env log

pub deeds-IgnoresWaits : IgnoresWaits deeds
deeds-IgnoresWaits = record {
  clock = λ env log. refl;
  directions = λ s env log. refl;
  polling = λ fd i o t env log. refl;
  error = λ s env log. refl;
  errno = λ s env log. refl;
}

-- A call has been repeated, with nothing but waits between, until it was answered otherwise than
-- with EAGAIN, or until the wait behind such an answer failed.
pub data Settled (env : Env) (c : Call) (wait : Io Bool) (before : Log) (o : Option Reply)
    (after : Log) : Type 0 where
  answered :
      (n : ℕ) (log : Log)
      → deeds env log ≡ replicate n c ++ deeds env before
      → is_again env (env.answer log c) ≡ false
      → o ≡ some (env.answer log c)
      → after ≡ c ∷ log
      → Settled env c wait before o after
  gave_up :
      (n : ℕ) (log : Log)
      → deeds env log ≡ replicate n c ++ deeds env before
      → is_again env (env.answer log c) ≡ true
      → wait env (c ∷ log) ≡ some (false, after)
      → o ≡ none
      → Settled env c wait before o after

-- After an action that ends with a result.
pub After-run :
    {A B : Type 0} (Q : B → Log → Type 0) (m : Io A) (k : A → Io B) (env : Env) (log : Log)
    → ((a : A) (log' : Log) → m env log ≡ some (a, log') → After Q (k a env log'))
    → After Q ((m >>= k) env log)
unfolding ◌>>=◌
After-run {A} Q m k env log h = go (m env log) (λ a log' e. h a log' e)
  where
    go :
        (o : Option (A × Log))
        → ((a : A) (log' : Log) → o ≡ some (a, log') → After Q (k a env log'))
        → After Q (continue k env o)
    go none h = tt
    go (some (a, log')) h = h a log' refl

pub Held-run :
    {X B : Type 0} (f : View X) (m : Io B) (env : Env) (log : Log) {b : B} {log' : Log}
    → Held f m
    → m env log ≡ some (b, log')
    → f env log' ≡ f env log
Held-run {X} {B} f m env log {b} {log'} h e = go (m env log) (h.at env log) e
  where
    go :
        (o : Option (B × Log))
        → After (λ _ l. f env l ≡ f env log) o
        → o ≡ some (b, log')
        → f env log' ≡ f env log
    go none p q = absurd (cc)
    go (some (x, l)) p q = cc

module _ (env : Env) (c : Call) (wait : Io Bool) (before : Log) where
  abbrev Repeated : Log → Type 0
  Repeated log = (n : ℕ) × (deeds env log ≡ replicate n c ++ deeds env before)

  abbrev Ready : Unit {0} → Log → Type 0
  Ready _ log = Repeated log

  abbrev Ends : Option Reply → Log → Type 0
  Ends o log = Settled env c wait before o log

  again_if :
      (ready : Bool) (log log' : Log)
      → Repeated log
      → is_wait c ≡ false
      → is_again env (env.answer log c) ≡ true
      → wait env (c ∷ log) ≡ some (ready, log')
      → Held deeds wait
      → InTurn Ready Ends (if ready then again tt else done none) log'
  again_if false log log' (n, e) h b w held = gave_up n log e b w refl
  again_if true log log' (n, e) h b w held = (
    suc n,
    Held-run deeds wait env (c ∷ log) held w
        ∙ ap (λ x. if x then deeds env log else c ∷ deeds env log) h
        ∙ ap (λ x. c ∷ x) e,
  )

  settle_round :
      (log : Log)
      → is_wait c ≡ false
      → Held deeds wait
      → Repeated log
      → After (InTurn Ready Ends) (retry_round c wait env log)
  unfolding retry_round
  settle_round log h held (n, e) =
      let Q = InTurn Ready Ends in
      After-ask Q env log c _ (
        After-test Q env (c ∷ log) (env.answer log c) _ (
          After-if Q (not (is_again env (env.answer log c))) _ _ env (c ∷ log)
            (λ b. After-pure Q _ env (c ∷ log) (answered n log e (ground arith) refl refl))
            (λ b. After-run Q wait _ env (c ∷ log) (λ ready log' w.
              After-pure Q _ env log' (again_if ready log log' (n, e) h (ground arith) w held)))))

  pub retry-Settled :
      is_wait c ≡ false
      → Held deeds wait
      → After (λ o log. Settled env c wait before o log) (retry c wait env before)
  unfolding retry loop
  retry-Settled h held =
      After-rounds Ready Ends _ env (λ _ log r. settle_round log h held r) env.fuel tt before
        (0, refl)
