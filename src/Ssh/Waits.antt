-- ===== src/Ssh/Waits.antt =====
-- That the loops of entry/src/main/cpp/native_ssh_libssh2.cpp which wait for the network end by their
-- deadlines.
pub mod Deadline
pub mod Authentication
use tabssh_harmonyos.Prelude.{
  ℕ, suc, ◌+◌, ◌≤◌, ◌≡◌, refl, Bool, true, false, List, [], ◌∷◌, Option, none, some, if◌then◌else◌,
}
use tabssh_harmonyos.Ssh.Calls.{Call, Env, Log, Io, pure, ◌>>=◌, continue}

abbrev pub is_look : Call → Bool
is_look Call.clock_now = true
is_look _ = false

abbrev pub counted : Bool → ℕ → ℕ
counted true n = suc n
counted false n = n

-- How often the clock has been read.
unfoldable pub looks : Log → ℕ
looks [] = 0
looks (c ∷ log) = counted (is_look c) (looks log)

-- From some number of readings on, the clock shows a time or a later one.
abbrev pub Passes : Env → ℕ → ℕ → Type 0
Passes env time readings =
    (log : Log) → readings ≤ looks log → time ≤ (env.answer log Call.clock_now).number

-- No signal interrupts a poll.
abbrev pub Uninterrupted : Env → Type 0
Uninterrupted env = (log : Log) (call : Call) → (env.answer log call).interrupted ≡ false

-- The run ends, with a statement about its result and log.
abbrev pub Ends : {A : Type 0} → (A → Log → Type 0) → Option (A × Log) → Type 0
Ends Q none = ⊥
Ends Q (some (a, log)) = Q a log

pub Ends-bind :
    {A B : Type 0} (Q : A → Log → Type 0) (R : B → Log → Type 0) (m : Io A) (f : A → Io B)
    (env : Env) (log : Log)
    → Ends Q (m env log)
    → ((a : A) (log' : Log) → Q a log' → Ends R (f a env log'))
    → Ends R ((m >>= f) env log)
unfolding ◌>>=◌
Ends-bind {A} {B} Q R m f env log h k = onward (m env log) h
  where
    onward : (o : Option (A × Log)) → Ends Q o → Ends R (continue f env o)
    onward none h = absurd h
    onward (some (a, log')) h = k a log' h

pub Ends-if :
    {A : Type 0} (Q : A → Log → Type 0) (b : Bool) (m n : Io A) (env : Env) (log : Log)
    → (b ≡ true → Ends Q (m env log))
    → (b ≡ false → Ends Q (n env log))
    → Ends Q ((if b then m else n) env log)
Ends-if Q true m n env log h k = h refl
Ends-if Q false m n env log h k = k refl

pub Ends-pure :
    {A : Type 0} (Q : A → Log → Type 0) (a : A) (env : Env) (log : Log)
    → Q a log
    → Ends Q (pure a env log)
unfolding pure
Ends-pure Q a env log h = h

pub Ends-weaken :
    {A : Type 0} (Q R : A → Log → Type 0) (o : Option (A × Log))
    → ((a : A) (log : Log) → Q a log → R a log)
    → Ends Q o
    → Ends R o
Ends-weaken Q R none w h = h
Ends-weaken Q R (some (a, log)) w h = w a log h

-- The run ends: it gives a result and a log.
abbrev pub Returns : {A : Type 0} → Io A → Env → Log → Type 0
Returns {A} m env log = (a : A) × (log' : Log) × (m env log ≡ some (a, log'))

pub Ends-Returns :
    {A : Type 0} (Q : A → Log → Type 0) (m : Io A) (env : Env) (log : Log)
    → Ends Q (m env log)
    → Returns m env log
Ends-Returns {A} Q m env log h = given (m env log) h
  where
    given : (o : Option (A × Log)) → Ends Q o → (a : A) × (log' : Log) × (o ≡ some (a, log'))
    given none h = absurd h
    given (some (a, log')) h = (a, log', refl)
