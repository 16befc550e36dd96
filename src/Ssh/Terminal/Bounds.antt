-- ===== src/Ssh/Terminal/Bounds.antt =====
-- How much `Read` of entry/src/main/cpp/native_ssh_libssh2.cpp hands out at once.
use tabssh_harmonyos.Prelude.{
  ℕ, ◌≤◌, ◌<◌, ◌≡◌, Bool, not, ◌&&◌, ◌||◌, if◌then◌else◌, true, false, [], ◌++◌, Option, none, some,
  Bytes, arith, length, length-append, length-take, ltb, take,
}
use tabssh_harmonyos.Prelude.Int.{ℤ, pos, pos_part, ltb_ℤ, eqb_ℤ}
use tabssh_harmonyos.Prelude.Map.{lookup}
use tabssh_harmonyos.Json.Result.{NativeResult}
use tabssh_harmonyos.Ssh.Calls.{Call, Reply, Env, Log, ask, test_again, Turn, again, done, loop}
use tabssh_harmonyos.Ssh.Effects.{After, After-bind, After-if, After-pure, After-rounds, InTurn}
use tabssh_harmonyos.Ssh.Effects.Runs.{After-then}
use tabssh_harmonyos.Ssh.Terminal.{
  Drained, read_reply, read_round, read_stream, next_stream, read_streams, finish_read, read_alive,
  read_on, read_found, read,
}
use tabssh_harmonyos.Ssh.State.{SessionState, ChannelState, Core}
use tabssh_harmonyos.Ssh.Trust.Globals.{After-eq}

-- libssh2_channel_read_ex returns at most the size of its buffer.
abbrev pub FillsBuffer : Env → Type 0
FillsBuffer env =
    (log : Log) (channel stream size : ℕ)
    → pos_part (env.answer log (Call.channel_read channel stream size)).value ≤ size

abbrev Fits : Bytes → Log → Type 0
Fits output log = length output < 278528

abbrev FitsDrained : Drained → Log → Type 0
FitsDrained d log = length d.output < 278528

abbrev FitsResult : NativeResult → Log → Type 0
FitsResult r log = length r.payload < 278528

InTurn-if :
    (b : Bool) (t u : Turn Bytes Drained) (log : Log)
    → InTurn Fits FitsDrained t log
    → InTurn Fits FitsDrained u log
    → InTurn Fits FitsDrained (if b then t else u) log
InTurn-if true t u log h k = h
InTurn-if false t u log h k = k

read_reply-Fits :
    (output : Bytes) (r : Reply) (blocked : Bool) (log : Log)
    → length output < 262144
    → pos_part r.value ≤ 16384
    → InTurn Fits FitsDrained (read_reply output r blocked) log
unfolding read_reply
read_reply-Fits output r blocked log h b =
    InTurn-if (ltb_ℤ (pos 0) r.value) (again (output ++ take (pos_part r.value) r.bytes)) _ log
      (omega (
        arith,
        length-append output (take (pos_part r.value) r.bytes),
        length-take (pos_part r.value) r.bytes,
      ))
      (InTurn-if (blocked || eqb_ℤ r.value (pos 0))
        (done (record { output = output; failed = none }))
        (done (record { output = output; failed = some r.value })) log (omega arith) (omega arith))

module _ (env : Env) (fills : FillsBuffer env) where
  read_round-Fits :
      (channel stream : ℕ) (output : Bytes) (log : Log)
      → length output < 278528
      → After (InTurn Fits FitsDrained) (read_round channel stream output env log)
  unfolding read_round ask
  read_round-Fits channel stream output log h =
      After-if (InTurn Fits FitsDrained) (ltb (length output) 262144) _ _ env log
        (λ q.
          After-bind (λ r _. pos_part r.value ≤ 16384) (InTurn Fits FitsDrained)
            (ask (Call.channel_read channel stream 16384)) _ env log
            (fills log channel stream 16384)
            (λ r log' small.
              After-then (InTurn Fits FitsDrained) (test_again r) _ env log' λ blocked log''.
                After-pure _ _ env log''
                  (read_reply-Fits output r blocked log'' (ground arith) small)))
        (λ q. After-pure _ _ env log h)

  read_stream-Fits :
      (channel stream : ℕ) (output : Bytes) (log : Log)
      → length output < 278528
      → After FitsDrained (read_stream channel stream output env log)
  unfolding read_stream loop
  read_stream-Fits channel stream output log h =
      After-rounds Fits FitsDrained _ env (read_round-Fits channel stream) env.fuel output log h

  next_stream-Fits :
      (channel : ℕ) (d : Drained) (o : Option ℤ) (log : Log)
      → FitsDrained d log
      → After FitsDrained (next_stream channel d o env log)
  unfolding next_stream
  next_stream-Fits channel d none log h = read_stream-Fits channel 1 d.output log h
  next_stream-Fits channel d (some code) log h = After-pure FitsDrained d env log h

  finish_read-Fits :
      (channel : ℕ) (session : SessionState) (d : Drained) (o : Option ℤ) (log : Log)
      → FitsDrained d log
      → After FitsResult (finish_read channel session d o env log)
  unfolding finish_read
  finish_read-Fits channel session d (some code) log h =
      After-then FitsResult _ _ env log (λ m log'. After-pure _ _ env log' h)
  finish_read-Fits channel session d none log h = After-then FitsResult _ _ env log λ eof log'.
      After-if FitsResult (eqb_ℤ eof.value (pos 0)) _ _ env log' (λ _. After-pure _ _ env log' h)
        (λ _. After-then FitsResult _ _ env log' (λ s log''. After-pure _ _ env log'' h))

  read_alive-Fits :
      (channel : ℕ) (session : SessionState) (r : Reply) (blocked : Bool) (log : Log)
      → After FitsResult (read_alive channel session r blocked env log)
  unfolding read_alive read_streams
  read_alive-Fits channel session r blocked log =
      After-if FitsResult (not (eqb_ℤ r.value (pos 0)) && not blocked) _ _ env log
        (λ _. After-then FitsResult _ _ env log (λ m log'. After-pure _ _ env log' (omega arith)))
        (λ _.
          After-bind FitsDrained FitsResult _ _ env log
            (After-bind FitsDrained FitsDrained _ _ env log
              (read_stream-Fits channel 0 [] log (omega arith))
              (λ d log' h. next_stream-Fits channel d d.failed log' h))
            (λ d log' h. finish_read-Fits channel session d d.failed log' h))

  read_on-Fits :
      (c : ChannelState) (o : Option SessionState) (log : Log)
      → After FitsResult (read_on c o env log)
  unfolding read_on
  read_on-Fits c none log = After-pure FitsResult _ env log (omega arith)
  read_on-Fits c (some session) log = After-then FitsResult _ _ env log λ r log'.
      After-then FitsResult (test_again r) _ env log'
        λ b log''. read_alive-Fits c.channel session r b log''

  read_found-Fits :
      (core : Core) (o : Option ChannelState) (log : Log)
      → After FitsResult (read_found core o env log)
  unfolding read_found
  read_found-Fits core none log = After-pure FitsResult _ env log (omega arith)
  read_found-Fits core (some c) log = read_on-Fits c _ log

-- A `Read` that returns hands out less than 262144 + 16384 bytes, on errors too, if no call of
-- libssh2_channel_read_ex returns more than the size of its buffer.
pub read-bounded :
    (env : Env) (id : Bytes) (core : Core) (log : Log) {result : NativeResult} {log' : Log}
    → FillsBuffer env
    → read id core env log ≡ some (result, log')
    → length result.payload < 278528
unfolding read
read-bounded env id core log fills e =
    After-eq FitsResult _ _ _ (read_found-Fits env fills core (lookup id core.channels) log) e
