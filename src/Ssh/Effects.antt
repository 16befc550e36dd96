-- ===== src/Ssh/Effects.antt =====
-- What an action of Ssh/Calls does to the log: a postcondition for each run that ends, and the actions
-- that hand no credentials to libssh2.
pub mod Sending
pub mod Held
pub mod Runs
pub mod Settled
pub mod Tasks
use tabssh_harmonyos.Prelude.{
  ℕ, zero, suc, ◌≡◌, refl, ◌∙◌, Bool, true, false, List, [], ◌∷◌, Option, none, some, if◌then◌else◌,
}
use tabssh_harmonyos.Ssh.Calls.{
  Call, Reply, Env, Log, Io, pure, continue, ◌>>=◌, ask, test_again, Turn, again, done, turn,
  rounds, loop, on_pointer,
}

-- The calls that carry a password or a passphrase.
unfoldable pub is_credential : Call → Bool
is_credential (Call.userauth_password s u p) = true
is_credential (Call.userauth_publickey s u p q) = true
is_credential _ = false

-- The credentials sent so far.
unfoldable pub sent : Log → Log
unfolding is_credential
sent [] = []
sent (c ∷ log) = if is_credential c then c ∷ sent log else sent log

-- A statement about the result and the log of a run, if the run ends.
abbrev pub After : {A : Type 0} → (A → Log → Type 0) → Option (A × Log) → Type 0
After Q none = Unit
After Q (some (a, log)) = Q a log

pub After-bind :
    {A B : Type 0} (Q : A → Log → Type 0) (R : B → Log → Type 0) (m : Io A) (f : A → Io B)
    (env : Env) (log : Log)
    → After Q (m env log)
    → ((a : A) (log' : Log) → Q a log' → After R (f a env log'))
    → After R ((m >>= f) env log)
unfolding ◌>>=◌
After-bind {A} {B} Q R m f env log h k = go (m env log) h
  where
    go : (o : Option (A × Log)) → After Q o → After R (continue f env o)
    go none h = tt
    go (some (a, log')) h = k a log' h

pub After-if :
    {A : Type 0} (Q : A → Log → Type 0) (b : Bool) (m n : Io A) (env : Env) (log : Log)
    → (b ≡ true → After Q (m env log))
    → (b ≡ false → After Q (n env log))
    → After Q ((if b then m else n) env log)
After-if Q true m n env log h k = h refl
After-if Q false m n env log h k = k refl

pub After-pure :
    {A : Type 0} (Q : A → Log → Type 0) (a : A) (env : Env) (log : Log)
    → Q a log
    → After Q (pure a env log)
unfolding pure
After-pure Q a env log h = h

-- A loop keeps what each of its rounds keeps.
abbrev pub InTurn :
    {S A : Type 0} → (S → Log → Type 0) → (A → Log → Type 0) → Turn S A → Log → Type 0
InTurn I Q (again s) log = I s log
InTurn I Q (done a) log = Q a log

pub After-rounds :
    {S A : Type 0} (I : S → Log → Type 0) (Q : A → Log → Type 0) (body : S → Io (Turn S A))
    (env : Env)
    → ((s : S) (log : Log) → I s log → After (InTurn I Q) (body s env log))
    → (fuel : ℕ) (s : S) (log : Log) → I s log
    → After Q (rounds fuel body s env log)
unfolding rounds
After-rounds I Q body env keep zero s log i = tt
After-rounds {S} {A} I Q body env keep (suc fuel) s log i =
    After-bind (InTurn I Q) Q (body s) (turn (rounds fuel body)) env log (keep s log i)
      (next (After-rounds I Q body env keep fuel))
  where
    next :
        ((s' : S) (log' : Log) → I s' log' → After Q (rounds fuel body s' env log'))
        → (t : Turn S A) (log' : Log) → InTurn I Q t log'
        → After Q (turn (rounds fuel body) t env log')
    next ih (again s') log' j = ih s' log' j
    next ih (done a) log' q = unfold pure in q

-- An action that sends no credentials, and whose result has a property.
pub record Quiet {A : Type 0} (P : A → Type 0) (m : Io A) : Type 0 where
  pub at : (env : Env) (log : Log) → After (λ a log'. P a × (sent log' ≡ sent log)) (m env log)

abbrev pub Any : {A : Type 0} → A → Type 0
Any a = Unit {0}

pub Quiet-pure : {A : Type 0} {P : A → Type 0} (a : A) → P a → Quiet P (pure a)
unfolding pure
Quiet-pure a h = record { at = λ env log. (h, refl) }

pub Quiet-ask : (c : Call) → is_credential c ≡ false → Quiet Any (ask c)
unfolding ask sent
Quiet-ask c h = record { at = λ env log. (tt, rw h) }

pub Quiet-test_again : (r : Reply) → Quiet Any (test_again r)
unfolding test_again
Quiet-test_again r = record { at = λ env log. (tt, refl) }

pub Quiet-bind :
    {A B : Type 0} (P : A → Type 0) (Q : B → Type 0) (m : Io A) (f : A → Io B)
    → Quiet P m
    → ((a : A) → P a → Quiet Q (f a))
    → Quiet Q (m >>= f)
Quiet-bind {B = B} P Q m f h k = record {
  at = λ env log.
      After-bind (λ a log'. P a × (sent log' ≡ sent log)) (λ b log'. Q b × (sent log' ≡ sent log)) m
        f env log (h.at env log)
        (λ a log' p. weaken (sent log) (sent log') p.1 (f a env log') ((k a p.0).at env log'));
}
  where
    weaken :
        (x y : Log)
        → y ≡ x
        → (o : Option (B × Log)) → After (λ b log''. Q b × (sent log'' ≡ y)) o
        → After (λ b log''. Q b × (sent log'' ≡ x)) o
    weaken x y e none h = tt
    weaken x y e (some (b, l)) h = (h.0, h.1 ∙ e)

pub Quiet-if :
    {A : Type 0} {P : A → Type 0} (b : Bool) (m n : Io A)
    → (b ≡ true → Quiet P m)
    → (b ≡ false → Quiet P n)
    → Quiet P (if b then m else n)
Quiet-if true m n h k = h refl
Quiet-if false m n h k = k refl

abbrev pub InTurnQ : {S A : Type 0} → (A → Type 0) → Turn S A → Type 0
InTurnQ P (again s) = Unit
InTurnQ P (done a) = P a

pub Quiet-loop :
    {S A : Type 0} (P : A → Type 0) (body : S → Io (Turn S A)) (s : S)
    → ((s : S) → Quiet (InTurnQ P) (body s))
    → Quiet P (loop body s)
unfolding loop
Quiet-loop {S} {A} P body s h = record {
  at = λ env log.
      After-rounds (λ _ log'. sent log' ≡ sent log) (λ a log'. P a × (sent log' ≡ sent log)) body
        env (λ s' log' e. round (sent log) (sent log') e (body s' env log') ((h s').at env log'))
        env.fuel s log refl;
}
  where
    round :
        (x y : Log)
        → y ≡ x
        → (o : Option (Turn S A × Log)) → After (λ t log''. InTurnQ P t × (sent log'' ≡ y)) o
        → After (InTurn (λ _ log''. sent log'' ≡ x) (λ a log''. P a × (sent log'' ≡ x))) o
    round x y e none h = tt
    round x y e (some (again s', l)) h = h.1 ∙ e
    round x y e (some (done a, l)) h = (h.0, h.1 ∙ e)

-- The same where nothing is said of the results.
abbrev pub Silent : {A : Type 0} → Io A → Type 0
Silent = Quiet Any

pub Silent-pure : {A : Type 0} (a : A) → Silent (pure a)
Silent-pure a = Quiet-pure a tt

pub Silent-bind :
    {A B : Type 0} (m : Io A) (f : A → Io B)
    → Silent m
    → ((a : A) → Silent (f a))
    → Silent (m >>= f)
Silent-bind m f h k = Quiet-bind Any Any m f h (λ a _. k a)

pub Silent-if :
    {A : Type 0} (b : Bool) (m n : Io A) → Silent m → Silent n → Silent (if b then m else n)
Silent-if b m n h k = Quiet-if b m n (λ _. h) (λ _. k)

pub InTurnQ-Any : {S A : Type 0} (t : Turn S A) → InTurnQ Any t
InTurnQ-Any (again s) = tt
InTurnQ-Any (done a) = tt

pub Quiet-weaken :
    {A : Type 0} (P Q : A → Type 0) (m : Io A) → ((a : A) → P a → Q a) → Quiet P m → Quiet Q m
Quiet-weaken {A} P Q m w h = record { at = λ env log. go (sent log) (m env log) (h.at env log) }
  where
    go :
        (x : Log) (o : Option (A × Log))
        → After (λ a l. P a × (sent l ≡ x)) o
        → After (λ a l. Q a × (sent l ≡ x)) o
    go x none h = tt
    go x (some (a, l)) h = (w a h.0, h.1)

pub Silent-loop :
    {S A : Type 0} (body : S → Io (Turn S A)) (s : S)
    → ((s : S) → Silent (body s))
    → Silent (loop body s)
Silent-loop body s h =
    Quiet-loop Any body s
      (λ s'. Quiet-weaken Any (InTurnQ Any) (body s') (λ t _. InTurnQ-Any t) (h s'))

-- The result has a property on account of the last action.
pub Quiet-after :
    {A B : Type 0} {Q : B → Type 0} (m : Io A) (f : A → Io B)
    → Silent m
    → ((a : A) → Quiet Q (f a))
    → Quiet Q (m >>= f)
Quiet-after {Q = Q} m f h k = Quiet-bind Any Q m f h (λ a _. k a)

pub Quiet-either :
    {A : Type 0} {P : A → Type 0} (b : Bool) (m n : Io A)
    → Quiet P m
    → Quiet P n
    → Quiet P (if b then m else n)
Quiet-either b m n h k = Quiet-if b m n (λ _. h) (λ _. k)

pub Quiet-on_pointer :
    {A : Type 0} {P : A → Type 0} (o : Option ℕ) (m : Io A) (f : ℕ → Io A)
    → Quiet P m
    → ((p : ℕ) → Quiet P (f p))
    → Quiet P (on_pointer o m f)
unfolding on_pointer
Quiet-on_pointer none m f h k = h
Quiet-on_pointer (some p) m f h k = k p

pub Silent-on_pointer :
    {A : Type 0} (o : Option ℕ) (m : Io A) (f : ℕ → Io A)
    → Silent m
    → ((p : ℕ) → Silent (f p))
    → Silent (on_pointer o m f)
Silent-on_pointer o m f h k = Quiet-on_pointer o m f h k

pub ruleset quiet_rules = (Quiet-pure, Quiet-after, Quiet-either, Quiet-on_pointer)

pub ruleset silent_rules = (
  Silent-pure, Quiet-ask, Quiet-test_again, Silent-bind, Silent-if, Silent-loop, Silent-on_pointer,
)
