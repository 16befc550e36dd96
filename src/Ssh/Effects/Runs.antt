-- ===== src/Ssh/Effects/Runs.antt =====
-- Postconditions of a run, one call after the other.
use tabssh_harmonyos.Prelude.{
  ℕ, ◌≡◌, refl, ap, ◌∙◌, arith, not, if◌then◌else◌, Bool, true, false, ◌∷◌, Option, none, some,
}
use tabssh_harmonyos.Prelude.Int.{pos_part}
use tabssh_harmonyos.Ssh.Calls.{
  Call, Reply, Env, Log, Io, ◌>>=◌, ask, is_again, test_again, look, is_stopping, on_pointer, again,
  done, loop,
}
use tabssh_harmonyos.Ssh.Effects.{After, After-bind, After-if, After-pure, After-rounds, InTurn}
use tabssh_harmonyos.Ssh.Effects.Held.{View, seen, Held}
use tabssh_harmonyos.Ssh.State.{Core}
use tabssh_harmonyos.Ssh.Network.{retry_round, retry}

module _ {A : Type 0} (Q : A → Log → Type 0) (env : Env) (log : Log) where
  -- After a call the run goes on with its answer.
  pub After-ask :
      (c : Call) (k : Reply → Io A)
      → After Q (k (env.answer log c) env (c ∷ log))
      → After Q ((ask c >>= k) env log)
  unfolding ask ◌>>=◌
  After-ask c k h = h

  pub After-test :
      (r : Reply) (k : Bool → Io A)
      → After Q (k (is_again env r) env log)
      → After Q ((test_again r >>= k) env log)
  unfolding test_again ◌>>=◌
  After-test r k h = h

  pub After-look :
      (k : Core → Io A) → After Q (k (env.globals log) env log) → After Q ((look >>= k) env log)
  unfolding look ◌>>=◌
  After-look k h = h

  pub After-is_stopping :
      (k : Bool → Io A)
      → After Q (k (env.stopping log) env log)
      → After Q ((is_stopping >>= k) env log)
  unfolding is_stopping ◌>>=◌
  After-is_stopping k h = h

  -- After an action that leaves a view as it is.
  pub After-Held :
      {X B : Type 0} (f : View X) (x : X) (m : Io B) (k : B → Io A)
      → Held f m
      → f env log ≡ x
      → ((b : B) (log' : Log) → f env log' ≡ x → After Q (k b env log'))
      → After Q ((m >>= k) env log)
  After-Held f x m k h e g =
      After-bind (λ _ log'. f env log' ≡ f env log) Q m k env log (h.at env log)
        (λ b log' e'. g b log' (e' ∙ e))

  pub After-on_pointer :
      (o : Option ℕ) (m : Io A) (k : ℕ → Io A)
      → (o ≡ none → After Q (m env log))
      → ((p : ℕ) → o ≡ some p → After Q (k p env log))
      → After Q (on_pointer o m k env log)
  unfolding on_pointer
  After-on_pointer none m k h g = h refl
  After-on_pointer (some p) m k h g = g p refl

-- An answer of EAGAIN is negative.
pub is_again-pos_part : (env : Env) (r : Reply) → is_again env r ≡ true → pos_part r.value ≡ 0
unfolding is_again
is_again-pos_part env r h = ground arith

pub After-any : {A : Type 0} (o : Option (A × Log)) → After (λ _ _. Unit) o
After-any none = tt
After-any (some (a, log)) = tt

-- After an action of which nothing is said.
pub After-then :
    {A B : Type 0} (Q : B → Log → Type 0) (m : Io A) (k : A → Io B) (env : Env) (log : Log)
    → ((a : A) (log' : Log) → After Q (k a env log'))
    → After Q ((m >>= k) env log)
After-then Q m k env log h =
    After-bind (λ _ _. Unit) Q m k env log (After-any _) (λ a log' _. h a log')

pub After-weaken :
    {A : Type 0} (Q R : A → Log → Type 0) (o : Option (A × Log))
    → ((a : A) (log : Log) → Q a log → R a log)
    → After Q o
    → After R o
After-weaken Q R none w h = tt
After-weaken Q R (some (a, log)) w h = w a log h

-- A call that is repeated has the effect that it has once, if it has no further one.
pub retry-settled :
    {X : Type 0} (step : Call → Reply → X → X) (start x : X) (c : Call) (wait : Io Bool) (env : Env)
    (log : Log)
    → ((r : Reply) → step c r (seen step start env log) ≡ x)
    → ((r : Reply) → step c r x ≡ x)
    → Held (seen step start) wait
    → After (λ _ log'. seen step start env log' ≡ x) (retry c wait env log)
unfolding retry loop retry_round
retry-settled {X} step start x c wait env log first further h =
    After-rounds Ready Settled _ env (λ _ log' i. one_round log' i) env.fuel tt log first
  where
    Ready : Unit {0} → Log → Type 0
    Ready _ l = (r : Reply) → step c r (seen step start env l) ≡ x

    Settled : Option Reply → Log → Type 0
    Settled _ l = seen step start env l ≡ x

    ready_if :
        (ready : Bool) (l : Log)
        → seen step start env l ≡ x
        → InTurn Ready Settled (if ready then again tt else done none) l
    ready_if true l e = λ r. ap (step c r) e ∙ further r
    ready_if false l e = e

    one_round : (l : Log) → Ready tt l → After (InTurn Ready Settled) (retry_round c wait env l)
    one_round l i = After-ask (InTurn Ready Settled) env l c _ (
        After-test (InTurn Ready Settled) env (c ∷ l) (env.answer l c) _ (
          After-if (InTurn Ready Settled) (not (is_again env (env.answer l c))) _ _ env (c ∷ l)
            (λ _. After-pure (InTurn Ready Settled) _ env (c ∷ l) (i (env.answer l c)))
            (λ _.
              After-Held (InTurn Ready Settled) env (c ∷ l) (seen step start) x wait _ h
                (i (env.answer l c))
                (λ ready l' e. After-pure (InTurn Ready Settled) _ env l' (ready_if ready l' e)))))
