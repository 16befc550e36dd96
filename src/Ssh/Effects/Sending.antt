-- ===== src/Ssh/Effects/Sending.antt =====
-- Actions that hand one set of credentials to libssh2, any number of times, and no others.
use tabssh_harmonyos.Prelude.{
  ℕ, zero, suc, ◌≡◌, refl, ap, ◌∙◌, Bool, true, false, ◌∷◌, ◌++◌, Option, none, some, replicate,
  if◌then◌else◌,
}
use tabssh_harmonyos.Ssh.Calls.{Call, Env, Log, Io, ◌>>=◌, ask, Turn, again, done, loop}
use tabssh_harmonyos.Ssh.Effects.{
  is_credential, sent, After, After-bind, After-rounds, InTurn, InTurnQ, Quiet,
}

abbrev pub Repeats : Call → Log → Log → Type 0
Repeats c x y = (k : ℕ) × (y ≡ replicate k c ++ x)

replicate-append :
    (c : Call) (j k : ℕ) (x : Log)
    → (i : ℕ) × (replicate j c ++ (replicate k c ++ x) ≡ replicate i c ++ x)
replicate-append c zero k x = (k, refl)
replicate-append c (suc j) k x = let (i, e) = replicate-append c j k x in (suc i, ap (◌∷◌ c) e)

Repeats-trans : (c : Call) (x y z : Log) → Repeats c x y → Repeats c y z → Repeats c x z
Repeats-trans c x y z (k, e) (j, f) =
    let (i, g) = replicate-append c j k x in (i, f ∙ ap (◌++◌ (replicate j c)) e ∙ g)

module _ (c : Call) where
  pub record Sending {A : Type 0} (P : A → Type 0) (m : Io A) : Type 0 where
    pub at :
        (env : Env) (log : Log)
        → After (λ a log'. P a × Repeats c (sent log) (sent log')) (m env log)

  pub Sending-Quiet : {A : Type 0} {P : A → Type 0} (m : Io A) → Quiet P m → Sending P m
  Sending-Quiet {A} {P} m h = record { at = λ env log. go (sent log) (m env log) (h.at env log) }
    where
      go :
          (x : Log) (o : Option (A × Log))
          → After (λ a l. P a × (sent l ≡ x)) o
          → After (λ a l. P a × Repeats c x (sent l)) o
      go x none q = tt
      go x (some (a, l)) q = (q.0, (0, q.1))

  pub Sending-ask : is_credential c ≡ true → Sending (λ _. Unit {0}) (ask c)
  unfolding ask sent
  Sending-ask h = record { at = λ env log. (tt, (1, rw h)) }

  step :
      {A : Type 0} (P : A → Type 0) (x y : Log) (o : Option (A × Log))
      → Repeats c x y
      → After (λ a l. P a × Repeats c y (sent l)) o
      → After (λ a l. P a × Repeats c x (sent l)) o
  step P x y none e h = tt
  step P x y (some (a, l)) e h = (h.0, Repeats-trans c x y (sent l) e h.1)

  pub Sending-bind :
      {A B : Type 0} (P : A → Type 0) {Q : B → Type 0} (m : Io A) (f : A → Io B)
      → Sending P m
      → ((a : A) → P a → Sending Q (f a))
      → Sending Q (m >>= f)
  Sending-bind P {Q} m f h k = record {
    at = λ env log.
        After-bind (λ a log'. P a × Repeats c (sent log) (sent log'))
          (λ b log'. Q b × Repeats c (sent log) (sent log')) m f env log (h.at env log)
          (λ a log' p. step Q (sent log) (sent log') (f a env log') p.1 ((k a p.0).at env log'));
  }

  pub Sending-if :
      {A : Type 0} {P : A → Type 0} (b : Bool) (m n : Io A)
      → Sending P m
      → Sending P n
      → Sending P (if b then m else n)
  Sending-if true m n h k = h
  Sending-if false m n h k = k

  pub Sending-either :
      {A : Type 0} {P : A → Type 0} (b : Bool) (m n : Io A)
      → (b ≡ true → Sending P m)
      → (b ≡ false → Sending P n)
      → Sending P (if b then m else n)
  Sending-either true m n h k = h refl
  Sending-either false m n h k = k refl

  pub Sending-loop :
      {S A : Type 0} (P : A → Type 0) (body : S → Io (Turn S A)) (s : S)
      → ((s : S) → Sending (InTurnQ P) (body s))
      → Sending P (loop body s)
  unfolding loop
  Sending-loop {S} {A} P body s h = record {
    at = λ env log.
        After-rounds (λ _ log'. Repeats c (sent log) (sent log'))
          (λ a log'. P a × Repeats c (sent log) (sent log')) body env
          (λ s' log' e. round (sent log) (sent log') e (body s' env log') ((h s').at env log'))
          env.fuel s log (0, refl);
  }
    where
      round :
          (x y : Log)
          → Repeats c x y
          → (o : Option (Turn S A × Log)) → After (λ t l. InTurnQ P t × Repeats c y (sent l)) o
          → After (InTurn (λ _ l. Repeats c x (sent l)) (λ a l. P a × Repeats c x (sent l))) o
      round x y e none h = tt
      round x y e (some (again s', l)) h = Repeats-trans c x y (sent l) e h.1
      round x y e (some (done a, l)) h = (h.0, Repeats-trans c x y (sent l) e h.1)
