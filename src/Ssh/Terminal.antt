-- ===== src/Ssh/Terminal.antt =====
-- `Write` and `Read` of entry/src/main/cpp/native_ssh_libssh2.cpp.
pub mod Bounds
pub mod Written
use tabssh_harmonyos.Prelude.{
  ℕ, ◌+◌, Bool, true, false, not, ◌||◌, ◌&&◌, [], ◌++◌, Option, none, some, Bytes, codes, decimal,
  ltb, if◌then◌else◌, length, take, drop,
}
use tabssh_harmonyos.Prelude.Int.{ℤ, pos, pos_part, ltb_ℤ, eqb_ℤ}
use tabssh_harmonyos.Prelude.Map.{lookup}
use tabssh_harmonyos.Json.Result.{NativeResult}
use tabssh_harmonyos.Profile.{success, failure, timeout}
use tabssh_harmonyos.Ssh.Calls.{
  Call, Reply, Io, pure, ◌>>=◌, ◌>>◌, ask, test_again, Turn, again, done, loop,
}
use tabssh_harmonyos.Ssh.Channel.{
  wait_for_channel, session_deadline, channel_not_found, not_authenticated,
}
use tabssh_harmonyos.Ssh.Network.{session_error}
use tabssh_harmonyos.Ssh.State.{SessionState, raw, ChannelState, Core, find_authenticated_session}

-- One round of the loop of `Write`, behind its test.
unfoldable pub write_reply : SessionState → Io Bool → ℕ → Reply → Bool → Io (Turn ℕ NativeResult)
write_reply session wait written result blocked =
    if blocked
    then (wait >>= λ ready. pure (
        if ready
        then again written
        else done (failure timeout (codes "terminal write timed out") [])))
    else if ltb_ℤ result.value (pos 0)
    then (session_error (raw session.session) (codes "terminal write failed") >>= λ message.
        pure (done (failure result.value message [])))
    else pure (again (written + pos_part result.value))

unfoldable pub write_round : SessionState → Io Bool → ℕ → Bytes → ℕ → Io (Turn ℕ NativeResult)
unfolding write_reply
write_round session wait channel text written =
    if ltb written (length text)
    then (do
      result ← ask (Call.channel_write channel (drop written text))
      blocked ← test_again result
      write_reply session wait written result blocked)
    else pure (done (success (codes "written") (decimal written)))

unfoldable pub write_on : ChannelState → Bytes → Option SessionState → Io NativeResult
unfolding write_round
write_on channel text none = pure not_authenticated
write_on channel text (some session) = do
  deadline ← session_deadline session
  loop (write_round session (wait_for_channel session deadline) channel.channel text) 0

unfoldable pub write_found : Bytes → Core → Option ChannelState → Io NativeResult
unfolding write_on find_authenticated_session
write_found text core none = pure channel_not_found
write_found text core (some channel) =
    write_on channel text (find_authenticated_session core channel.session_id)

unfoldable pub write : Bytes → Bytes → Core → Io NativeResult
unfolding write_found
write channel_id text core = write_found text core (lookup channel_id core.channels)

-- How a loop over one stream ends: the output so far, and the failure, if any.
pub record Drained : Type 0 where
  pub output : Bytes
  pub failed : Option ℤ

-- One round of the loop over a stream.
unfoldable pub read_reply : Bytes → Reply → Bool → Turn Bytes Drained
read_reply output result blocked =
    if ltb_ℤ (pos 0) result.value
    then again (output ++ take (pos_part result.value) result.bytes)
    else if blocked || eqb_ℤ result.value (pos 0)
    then done (record { output = output; failed = none })
    else done (record { output = output; failed = some result.value })

unfoldable pub read_round : ℕ → ℕ → Bytes → Io (Turn Bytes Drained)
unfolding read_reply
read_round channel stream output =
    if ltb (length output) 262144
    then (do
      result ← ask (Call.channel_read channel stream 16384)
      blocked ← test_again result
      pure (read_reply output result blocked))
    else pure (done (record { output = output; failed = none }))

unfoldable pub read_stream : ℕ → ℕ → Bytes → Io Drained
unfolding read_round
read_stream channel stream output = loop (read_round channel stream) output

unfoldable pub next_stream : ℕ → Drained → Option ℤ → Io Drained
unfolding read_stream
next_stream channel standard none = read_stream channel 1 standard.output
next_stream channel standard (some code) = pure standard

-- Both streams, the second one only if the first has not failed.
unfoldable pub read_streams : ℕ → Io Drained
unfolding read_stream next_stream
read_streams channel = do
  standard ← read_stream channel 0 []
  next_stream channel standard standard.failed

unfoldable pub finish_read : ℕ → SessionState → Drained → Option ℤ → Io NativeResult
finish_read channel session drained (some code) = do
  message ← session_error (raw session.session) (codes "terminal read failed")
  pure (failure code message drained.output)
finish_read channel session drained none = do
  eof ← ask (Call.channel_eof channel)
  if eqb_ℤ eof.value (pos 0)
      then pure (success (codes "read") drained.output)
      else (ask (Call.channel_exit_status channel) >>= λ status. pure (record {
        ok = true;
        code = status.value;
        message = codes "eof";
        payload = drained.output;
      }))

unfoldable pub read_alive : ℕ → SessionState → Reply → Bool → Io NativeResult
unfolding read_streams finish_read
read_alive channel session keepalive blocked =
    if not (eqb_ℤ keepalive.value (pos 0)) && not blocked
    then (session_error (raw session.session) (codes "SSH keepalive failed") >>= λ message.
        pure (failure keepalive.value message []))
    else (read_streams channel >>= λ drained. finish_read channel session drained drained.failed)

unfoldable pub read_on : ChannelState → Option SessionState → Io NativeResult
unfolding read_alive
read_on channel none = pure not_authenticated
read_on channel (some session) = do
  keepalive ← ask (Call.keepalive_send (raw session.session))
  blocked ← test_again keepalive
  read_alive channel.channel session keepalive blocked

unfoldable pub read_found : Core → Option ChannelState → Io NativeResult
unfolding read_on find_authenticated_session
read_found core none = pure channel_not_found
read_found core (some channel) =
    read_on channel (find_authenticated_session core channel.session_id)

unfoldable pub read : Bytes → Core → Io NativeResult
unfolding read_found
read channel_id core = read_found core (lookup channel_id core.channels)
