-- ===== src/Ssh/Effects/Tasks.antt =====
-- Sequences of calls that end operations of entry/src/main/cpp/native_ssh_libssh2.cpp: single calls, and
-- calls that are repeated while the answer is EAGAIN, until a deadline.
use mathlib.Core.Path.{subst}
use tabssh_harmonyos.Prelude.{ℕ, ◌+◌, ◌*◌, ◌≡◌, Bool, false, List, [], ◌∷◌, ◌++◌, Option}
use tabssh_harmonyos.Ssh.Calls.{Call, Reply, Env, Log, Io, ◌>>=◌, pure, ask}
use tabssh_harmonyos.Ssh.Effects.{After, After-bind}
use tabssh_harmonyos.Ssh.Effects.Held.{Held}
use tabssh_harmonyos.Ssh.Effects.Settled.{is_wait, deeds, Settled, retry-Settled}
use tabssh_harmonyos.Ssh.Network.{deadline_after, retry}

-- A call made once; the clock read for a deadline so many milliseconds later; a call repeated until it is
-- settled or the wait, which knows the deadline, fails.
pub data Task : Type 0 where
  once : Call → Task
  start_clock : ℕ → Task
  until_settled : Call → (ℕ → Io Bool) → Task

-- From one log to another exactly these have been performed, from a deadline on.
abbrev pub Performs : Env → List Task → ℕ → Log → Log → Type 0
Performs env [] deadline x y = y ≡ x
Performs env (once c ∷ tasks) deadline x y = Performs env tasks deadline (c ∷ x) y
Performs env (start_clock ms ∷ tasks) deadline x y =
    Performs env tasks ((env.answer x Call.clock_now).number + ms * 1000000) (Call.clock_now ∷ x) y
Performs env (until_settled c wait ∷ tasks) deadline x y =
    (o : Option Reply) × (z : Log) × Settled env c (wait deadline) x o z
    × Performs env tasks deadline z y

pub Performs-append :
    (env : Env) (ts us : List Task) (d : ℕ) (x y z : Log)
    → Performs env ts d x y
    → ((d' : ℕ) → Performs env us d' y z)
    → Performs env (ts ++ us) d x z
Performs-append env [] us d x y z h k = subst (λ l. Performs env us d l z) h (k d)
Performs-append env (once c ∷ ts) us d x y z h k = Performs-append env ts us d (c ∷ x) y z h k
Performs-append env (start_clock ms ∷ ts) us d x y z h k =
    Performs-append env ts us ((env.answer x Call.clock_now).number + ms * 1000000)
      (Call.clock_now ∷ x) y z h k
Performs-append env (until_settled c wait ∷ ts) us d x y z (o, l, s, h) k =
    (o, l, s, Performs-append env ts us d l y z h k)

-- Tasks that do not read the clock for a new deadline.
abbrev pub IsTimeless : List Task → Type 0
IsTimeless [] = Unit
IsTimeless (once c ∷ tasks) = IsTimeless tasks
IsTimeless (start_clock ms ∷ tasks) = ⊥
IsTimeless (until_settled c wait ∷ tasks) = IsTimeless tasks

pub Performs-append_timeless :
    (env : Env) (ts us : List Task) (d : ℕ) (x y z : Log)
    → IsTimeless ts
    → Performs env ts d x y
    → Performs env us d y z
    → Performs env (ts ++ us) d x z
Performs-append_timeless env [] us d x y z i h k = subst (λ l. Performs env us d l z) h k
Performs-append_timeless env (once c ∷ ts) us d x y z i h k =
    Performs-append_timeless env ts us d (c ∷ x) y z i h k
Performs-append_timeless env (start_clock ms ∷ ts) us d x y z i h k = absurd i
Performs-append_timeless env (until_settled c wait ∷ ts) us d x y z i (o, l, s, h) k =
    (o, l, s, Performs-append_timeless env ts us d l y z i h k)

module _ {A : Type 0} (Q : A → Log → Type 0) (env : Env) (log : Log) where
  pub After-deadline :
      (ms : ℕ) (k : ℕ → Io A)
      → After Q
          (k ((env.answer log Call.clock_now).number + ms * 1000000) env (Call.clock_now ∷ log))
      → After Q ((deadline_after ms >>= k) env log)
  unfolding deadline_after ◌>>=◌ ask pure
  After-deadline ms k h = h

  pub After-retry :
      (c : Call) (wait : Io Bool) (k : Option Reply → Io A)
      → is_wait c ≡ false
      → Held deeds wait
      → ((o : Option Reply) (z : Log) → Settled env c wait log o z → After Q (k o env z))
      → After Q ((retry c wait >>= k) env log)
  After-retry c wait k h held g =
      After-bind (λ o z. Settled env c wait log o z) Q (retry c wait) k env log
        (retry-Settled env c wait log h held) g
