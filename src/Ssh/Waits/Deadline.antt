-- ===== src/Ssh/Waits/Deadline.antt =====
-- `WaitSocket` and the loops around it, which give up when their deadline has passed.
use native.Mathlib.Decide.{dec_le}
use native.Mathlib.Nat.{le_refl, le_trans}
use tabssh_harmonyos.Prelude.{
  ℕ, zero, suc, ◌+◌, ◌≤◌, ◌<◌, ◌≡◌, refl, Bool, true, false, not, ◌&&◌, ◌∷◌, Option, none, some,
  arith, ◌==◌, if◌then◌else◌,
}
use tabssh_harmonyos.Ssh.Calls.{
  Call, Reply, Env, Log, Io, pure, ◌>>=◌, ask, test_again, Turn, again, done, turn, rounds, loop,
}
use tabssh_harmonyos.Ssh.Network.{
  remaining_milliseconds, poll_round, poll_loop, wait_ready, wait_socket, retry_round,
}
use tabssh_harmonyos.Ssh.Waits.{
  counted, is_look, looks, Passes, Uninterrupted, Ends, Ends-bind, Ends-if, Ends-pure, Ends-weaken,
}

counted_more : (b : Bool) (n : ℕ) → n ≤ counted b n
counted_more true n = omega arith
counted_more false n = le_refl _

module _ (env : Env) (calm : Uninterrupted env) (running : 0 < env.fuel) where
  abbrev Later : {A : Type 0} → Log → A → Log → Type 0
  Later log a log' = looks log ≤ looks log'

  calm_turn :
      (b : Bool) (r : Reply)
      → r.interrupted ≡ false
      → ◌≡◌ {A = Turn (Unit {0}) Reply} (if b && r.interrupted then again tt else done r) (done r)
  calm_turn true r h = rw h refl
  calm_turn false r h = refl

  finished :
      (rest : Unit {0} → Io Reply) (t : Turn (Unit {0}) Reply) (r : Reply) (log log' : Log)
      → t ≡ done r
      → looks log ≤ looks log'
      → Ends (Later log) (turn rest t env log')
  unfolding pure
  finished rest t r log log' e h = rw e h

  poll_rounds-Ends :
      (fuel fd timeout : ℕ) (inbound outbound : Bool) (log : Log)
      → 0 < fuel
      → Ends (Later log) (rounds fuel (λ _. poll_round fd inbound outbound timeout) tt env log)
  unfolding rounds poll_round ask pure ◌>>=◌ looks
  poll_rounds-Ends zero fd timeout inbound outbound log h = absurd (omega arith)
  poll_rounds-Ends (suc fuel) fd timeout inbound outbound log h =
      let call = Call.poll fd inbound outbound timeout in
      finished (rounds fuel (λ _. poll_round fd inbound outbound timeout)) _ (env.answer log call)
        log (call ∷ log) (calm_turn _ (env.answer log call) (calm log call)) (le_refl _)

  remaining-Ends :
      (deadline readings : ℕ) (log : Log)
      → Passes env deadline readings
      → Ends
          (λ timeout log'.
            ((timeout == 0) ≡ false → looks log < readings) × (looks log' ≡ suc (looks log)))
          (remaining_milliseconds deadline env log)
  unfolding remaining_milliseconds ask pure ◌>>=◌ looks
  remaining-Ends deadline readings log passes = (
    λ h. elim (dec_le readings (looks log)) [
      | yes late ↦ let over = passes log late in absurd (ground arith)
      | no early ↦ omega arith
    ],
    refl,
  )

  first_call : (call : Call) (log : Log) → Ends (Later log) (ask call env log)
  unfolding ask looks
  first_call call log = counted_more (is_look call) (looks log)

  wait_ready-Ends :
      (session fd timeout : ℕ) (log : Log)
      → Ends (λ (ready : Bool) log'. looks log ≤ looks log') (wait_ready session fd timeout env log)
  unfolding wait_ready poll_loop loop ask pure looks
  wait_ready-Ends session fd timeout log =
      let call = Call.block_directions session in
      Ends-bind (Later log) (Later log) (ask call) _ env log (first_call call log) λ d log' h.
        Ends-bind (Later log) (Later log) _ _ env log'
          (Ends-weaken (Later log') (Later log) _ (λ r log'' k. le_trans h k)
            (poll_rounds-Ends env.fuel fd timeout _ _ log' running))
          (λ r log'' k. k)

  wait_socket-Ends :
      (session fd deadline readings : ℕ) (log : Log)
      → Passes env deadline readings
      → Ends
          (λ ready log'. (ready ≡ true → looks log < readings) × (suc (looks log) ≤ looks log'))
          (wait_socket session fd deadline env log)
  unfolding wait_socket
  wait_socket-Ends session fd deadline readings log passes =
      Ends-bind _ _ (remaining_milliseconds deadline) _ env log
        (remaining-Ends deadline readings log passes)
        λ timeout log' h.
          Ends-if
            (λ ready log''. (ready ≡ true → looks log < readings) × (suc (looks log) ≤ looks log''))
            (timeout == 0) (pure false) (wait_ready session fd timeout) env log'
            (λ _. Ends-pure _ false env log' (λ e. absurd cc, omega (arith, h.1)))
            (λ k.
              Ends-weaken (Later log') _ _ (λ ready log'' l. (λ _. h.0 k, omega (arith, h.1, l)))
                (wait_ready-Ends session fd timeout log'))

  -- A round that is not the last one came before the deadline and has read the clock.
  abbrev Progress : ℕ → Log → Turn (Unit {0}) (Option Reply) → Log → Type 0
  Progress readings log (again s) log' = (looks log < readings) × (suc (looks log) ≤ looks log')
  Progress readings log (done r) log' = Unit

  Progress-if :
      (readings : ℕ) (ready : Bool) (log log' : Log)
      → (ready ≡ true → looks log < readings) × (suc (looks log) ≤ looks log')
      → Progress readings log (if ready then again tt else done none) log'
  Progress-if readings true log log' h = (h.0 refl, h.1)
  Progress-if readings false log log' h = tt

  tested : (r : Reply) (log : Log) → Ends (Later log) (test_again r env log)
  unfolding test_again
  tested r log = le_refl _

  retry_round-Ends :
      (call : Call) (session fd deadline readings : ℕ) (log : Log)
      → Passes env deadline readings
      → Ends (Progress readings log) (retry_round call (wait_socket session fd deadline) env log)
  unfolding retry_round
  retry_round-Ends call session fd deadline readings log passes =
      Ends-bind (Later log) (Progress readings log) (ask call) _ env log (first_call call log)
        λ r log' later.
          Ends-bind (λ _ l. looks log' ≤ looks l) (Progress readings log) (test_again r) _ env log'
            (tested r log')
            λ blocked log'' later'.
              Ends-if (Progress readings log) (not blocked) _ _ env log''
                (λ _. Ends-pure (Progress readings log) (done (some r)) env log'' tt)
                (λ _.
                  Ends-bind _ (Progress readings log) (wait_socket session fd deadline) _ env log''
                    (wait_socket-Ends session fd deadline readings log'' passes)
                    (λ ready l h. Ends-pure (Progress readings log) _ env l (
                      Progress-if readings ready log l
                        (λ e. (let q = h.0 e in omega arith), omega (arith, h.1)))))

  -- The loop around a call: it ends however often the call answers LIBSSH2_ERROR_EAGAIN, if there are
  -- more rounds than readings of the clock until the deadline.
  pub retry_rounds-Ends :
      (call : Call) (session fd deadline readings fuel : ℕ) (log : Log)
      → Passes env deadline readings
      → 0 < fuel
      → readings < fuel + looks log
      → Ends
          (λ _ _. Unit)
          (rounds fuel (λ _. retry_round call (wait_socket session fd deadline)) tt env log)
  unfolding rounds
  retry_rounds-Ends call session fd deadline readings zero log passes some_left enough =
      absurd (omega arith)
  retry_rounds-Ends call session fd deadline readings (suc fuel) log passes some_left enough =
      Ends-bind (Progress readings log) (λ _ _. Unit) _ _ env log
        (retry_round-Ends call session fd deadline readings log passes)
        (onward (λ l. retry_rounds-Ends call session fd deadline readings fuel l passes))
    where
      onward :
          ((l : Log)
            → 0 < fuel
            → readings < fuel + looks l
            → Ends
                (λ _ _. Unit)
                (rounds fuel (λ _. retry_round call (wait_socket session fd deadline)) tt env l))
          → (t : Turn (Unit {0}) (Option Reply)) (l : Log) → Progress readings log t l
          → Ends
              (λ _ _. Unit)
              (turn (rounds fuel (λ _. retry_round call (wait_socket session fd deadline))) t env l)
      onward ih (again s) l h = ih l (omega (arith, h.0)) (omega (arith, h.0, h.1))
      onward ih (done r) l h = Ends-pure (λ _ _. Unit) r env l tt
