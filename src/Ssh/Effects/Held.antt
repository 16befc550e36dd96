-- ===== src/Ssh/Effects/Held.antt =====
-- Actions that leave a view of the log as it is.
use tabssh_harmonyos.Prelude.{
  ℕ, ◌≡◌, refl, ◌∙◌, Bool, true, false, [], ◌∷◌, Option, none, some, Bytes, if◌then◌else◌,
}
use tabssh_harmonyos.Ssh.Calls.{
  Call, Reply, Env, Log, Io, pure, ◌>>=◌, ask, test_again, on_pointer, Turn, again, done, loop,
}
use tabssh_harmonyos.Ssh.Effects.{After, After-bind, After-rounds, InTurn}
use tabssh_harmonyos.Ssh.Network.{
  deadline_after, remaining_milliseconds, poll_round, poll_loop, wait_ready, wait_socket,
  retry_round, retry, session_error,
}

-- What can be seen of a log, with the answers of its calls.
abbrev pub View : Type 0 → Type 0
View X = Env → Log → X

-- A view is taken along the log, the first call first.
abbrev pub seen : {X : Type 0} → (Call → Reply → X → X) → X → View X
seen step start env [] = start
seen step start env (c ∷ log) = step c (env.answer log c) (seen step start env log)

pub record Held {X : Type 0} (f : View X) {A : Type 0} (m : Io A) : Type 0 where
  pub at : (env : Env) (log : Log) → After (λ _ log'. f env log' ≡ f env log) (m env log)

module _ {X : Type 0} (f : View X) where
  pub Held-pure : {A : Type 0} (a : A) → Held f (pure a)
  unfolding pure
  Held-pure a = record { at = λ env log. refl }

  pub Held-ask :
      (c : Call) → ((env : Env) (log : Log) → f env (c ∷ log) ≡ f env log) → Held f (ask c)
  unfolding ask
  Held-ask c h = record { at = λ env log. h env log }

  pub Held-test_again : (r : Reply) → Held f (test_again r)
  unfolding test_again
  Held-test_again r = record { at = λ env log. refl }

  pub Held-bind :
      {A B : Type 0} (m : Io A) (k : A → Io B)
      → Held f m
      → ((a : A) → Held f (k a))
      → Held f (m >>= k)
  Held-bind {B = B} m k h g = record {
    at = λ env log.
        After-bind (λ _ log'. f env log' ≡ f env log) (λ _ log'. f env log' ≡ f env log) m k env log
          (h.at env log)
          (λ a log' e. from (f env log) (f env log') e env (k a env log') ((g a).at env log'));
  }
    where
      from :
          (x y : X)
          → y ≡ x
          → (env : Env) (o : Option (B × Log)) → After (λ _ l. f env l ≡ y) o
          → After (λ _ l. f env l ≡ x) o
      from x y e env none h' = tt
      from x y e env (some (b, l)) h' = h' ∙ e

  pub Held-if :
      {A : Type 0} (b : Bool) (m n : Io A) → Held f m → Held f n → Held f (if b then m else n)
  Held-if true m n h k = h
  Held-if false m n h k = k

  pub Held-on_pointer :
      {A : Type 0} (o : Option ℕ) (m : Io A) (k : ℕ → Io A)
      → Held f m
      → ((p : ℕ) → Held f (k p))
      → Held f (on_pointer o m k)
  unfolding on_pointer
  Held-on_pointer none m k h g = h
  Held-on_pointer (some p) m k h g = g p

  pub Held-loop :
      {S A : Type 0} (body : S → Io (Turn S A)) (s : S)
      → ((s : S) → Held f (body s))
      → Held f (loop body s)
  unfolding loop
  Held-loop {S} {A} body s h = record {
    at = λ env log.
        After-rounds (λ _ log'. f env log' ≡ f env log) (λ _ log'. f env log' ≡ f env log) body env
          (λ s' log' e.
            round (f env log) (f env log') e env (body s' env log') ((h s').at env log'))
          env.fuel s log refl;
  }
    where
      round :
          (x y : X)
          → y ≡ x
          → (env : Env) (o : Option (Turn S A × Log)) → After (λ _ l. f env l ≡ y) o
          → After (InTurn (λ _ l. f env l ≡ x) (λ _ l. f env l ≡ x)) o
      round x y e env none h' = tt
      round x y e env (some (again s', l)) h' = h' ∙ e
      round x y e env (some (done a, l)) h' = h' ∙ e

pub ruleset held_rules =
    (Held-pure, Held-ask, Held-test_again, Held-bind, Held-if, Held-on_pointer, Held-loop)

-- The calls by which the program waits, reads the clock and asks for an error are not seen.
pub record IgnoresWaits {X : Type 0} (f : View X) : Type 0 where
  pub clock : (env : Env) (log : Log) → f env (Call.clock_now ∷ log) ≡ f env log
  pub directions :
      (s : ℕ) (env : Env) (log : Log) → f env (Call.block_directions s ∷ log) ≡ f env log
  pub polling :
      (fd : ℕ) (i o : Bool) (t : ℕ) (env : Env) (log : Log)
      → f env (Call.poll fd i o t ∷ log) ≡ f env log
  pub error : (s : ℕ) (env : Env) (log : Log) → f env (Call.last_error s ∷ log) ≡ f env log
  pub errno : (s : ℕ) (env : Env) (log : Log) → f env (Call.last_errno s ∷ log) ≡ f env log

module _ {X : Type 0} (f : View X) (w : IgnoresWaits f) where
  pub deadline_after-Held : (t : ℕ) → Held f (deadline_after t)
  unfolding deadline_after
  deadline_after-Held t = Held-bind f _ _ (Held-ask f _ w.clock) (λ r. Held-pure f _)

  poll_loop-Held : (fd : ℕ) (i o : Bool) (t : ℕ) → Held f (poll_loop fd i o t)
  unfolding poll_loop poll_round
  poll_loop-Held fd i o t =
      Held-loop f _ _
        (λ _. Held-bind f _ _ (Held-ask f _ (w.polling fd i o t)) (λ r. Held-pure f _))

  pub wait_socket-Held : (s fd t : ℕ) → Held f (wait_socket s fd t)
  unfolding wait_socket wait_ready remaining_milliseconds
  wait_socket-Held s fd t =
      Held-bind f _ _ (Held-bind f _ _ (Held-ask f _ w.clock) (λ r. Held-pure f _)) λ n.
        Held-if f _ _ _ (Held-pure f _) (
          Held-bind f _ _ (Held-ask f _ (w.directions s))
            λ d. Held-bind f _ _ (poll_loop-Held fd _ _ n) (λ r. Held-pure f _))

  pub session_error-Held : (s : ℕ) (m : Bytes) → Held f (session_error s m)
  unfolding session_error
  session_error-Held s m = Held-bind f _ _ (Held-ask f _ (w.error s)) (λ r. Held-pure f _)

  pub retry-Held :
      (c : Call) (wait : Io Bool)
      → ((env : Env) (log : Log) → f env (c ∷ log) ≡ f env log)
      → Held f wait
      → Held f (retry c wait)
  unfolding retry retry_round
  retry-Held c wait h k = Held-loop f _ _ (λ _. Held-bind f _ _ (Held-ask f c h) λ r.
      Held-bind f _ _ (Held-test_again f r)
        λ b. Held-if f _ _ _ (Held-pure f _) (Held-bind f _ _ k (λ ready. Held-pure f _)))
