-- ===== src/Ssh/Network.antt =====
-- Waiting and connecting in entry/src/main/cpp/native_ssh_libssh2.cpp:
-- `RemainingMilliseconds`, `WaitSocket`, `SessionError`, `ConnectTcp`.
use tabssh_harmonyos.Prelude.{
  ℕ, ◌+◌, ◌-◌, ◌*◌, ◌/◌, min, Bool, true, false, not, ◌&&◌, ◌||◌, [], ◌∷◌, ◌++◌, List, Option, none,
  some, Bytes, codes, is_empty, ◌==◌, if◌then◌else◌,
}
use tabssh_harmonyos.Prelude.Int.{ℤ, pos, ltb_ℤ, eqb_ℤ}
use tabssh_harmonyos.Ssh.Calls.{
  Call, Reply, Io, pure, ◌>>=◌, ◌>>◌, ask, test_again, Turn, again, done, loop, on_pointer,
}

-- `steady_clock::now() + milliseconds(timeout)`, in nanoseconds.
unfoldable pub deadline_after : ℕ → Io ℕ
deadline_after milliseconds = do
  now ← ask Call.clock_now
  pure (now.number + milliseconds * 1000000)

-- The time left to a deadline, cut off to milliseconds and at INT32_MAX.
unfoldable pub remaining_milliseconds : ℕ → Io ℕ
remaining_milliseconds deadline = do
  now ← ask Call.clock_now
  pure (min ((deadline - now.number) / 1000000) 2147483647)

-- One `poll`, again while it is interrupted.
unfoldable pub poll_round : ℕ → Bool → Bool → ℕ → Io (Turn (Unit {0}) Reply)
poll_round fd inbound outbound timeout = do
  result ← ask (Call.poll fd inbound outbound timeout)
  pure (if ltb_ℤ result.value (pos 0) && result.interrupted then again tt else done result)

unfoldable pub poll_loop : ℕ → Bool → Bool → ℕ → Io Reply
unfolding poll_round
poll_loop fd inbound outbound timeout = loop (λ _. poll_round fd inbound outbound timeout) tt

unfoldable pub wait_ready : ℕ → ℕ → ℕ → Io Bool
unfolding poll_loop
wait_ready session socket_fd timeout = do
  directions ← ask (Call.block_directions session)
  let neither = not directions.inbound && not directions.outbound
  result ←
      poll_loop socket_fd (directions.inbound || neither) (directions.outbound || neither) timeout
  pure (ltb_ℤ (pos 0) result.value && not result.broken)

unfoldable pub wait_socket : ℕ → ℕ → ℕ → Io Bool
unfolding remaining_milliseconds wait_ready
wait_socket session socket_fd deadline = do
  timeout ← remaining_milliseconds deadline
  if timeout == 0 then pure false else wait_ready session socket_fd timeout

-- `do { result = call; if (result == EAGAIN && !wait) give up; } while (result == EAGAIN)`: the last
-- reply, or `none` where the wait has failed.
unfoldable pub retry_round : Call → Io Bool → Io (Turn (Unit {0}) (Option Reply))
retry_round call wait = do
  result ← ask call
  blocked ← test_again result
  if not blocked
      then pure (done (some result))
      else (wait >>= λ ready. pure (if ready then again tt else done none))

unfoldable pub retry : Call → Io Bool → Io (Option Reply)
unfolding retry_round
retry call wait = loop (λ _. retry_round call wait) tt

unfoldable pub session_error : ℕ → Bytes → Io Bytes
session_error session fallback = do
  message ← ask (Call.last_error session)
  pure (if is_empty message.bytes then fallback else message.bytes)

-- The descriptor is closed and the next address is tried.
unfoldable pub give_up : ℕ → Io (Option ℕ)
give_up fd = ask (Call.close_fd fd) >> pure none

unfoldable pub check_connected : ℕ → Reply → Io (Option ℕ)
unfolding give_up
check_connected fd polled =
    if ltb_ℤ (pos 0) polled.value && polled.writable
    then (ask (Call.socket_error fd) >>= λ e.
        if eqb_ℤ e.value (pos 0) && (e.number == 0) then pure (some fd) else give_up fd)
    else give_up fd

unfoldable pub connect_fd : ℕ → ℕ → ℕ → Io (Option ℕ)
unfolding poll_loop check_connected
connect_fd timeout address fd = do
  flags ← ask (Call.set_nonblocking fd)
  if ltb_ℤ flags.value (pos 0)
      then give_up fd
      else (ask (Call.connect_socket fd address) >>= λ result.
          if eqb_ℤ result.value (pos 0)
          then pure (some fd)
          else if not result.in_progress
          then give_up fd
          else (poll_loop fd false true timeout >>= check_connected fd))

unfoldable pub connect_address : ℕ → ℕ → Io (Option ℕ)
unfolding connect_fd
connect_address timeout address = do
  opened ← ask (Call.open_socket address)
  on_pointer opened.pointer (pure none) (connect_fd timeout address)

-- The loop over the addresses.
unfoldable pub connect_any : ℕ → List ℕ → Io (Option ℕ)
unfolding connect_address
connect_any timeout [] = pure none
connect_any timeout (address ∷ addresses) = do
  connected ← connect_address timeout address
  on_pointer connected (connect_any timeout addresses) (λ fd. pure (some fd))

-- The descriptor, or `none` with the message.
unfoldable pub connect_tcp : Bytes → ℤ → ℕ → Io (Option ℕ × Bytes)
unfolding connect_any
connect_tcp host port timeout = do
  lookup ← ask (Call.getaddrinfo host port)
  if not (eqb_ℤ lookup.value (pos 0))
      then (ask (Call.gai_strerror lookup.value) >>= λ e.
          pure (none, codes "DNS resolution failed: " ++ e.bytes))
      else (do
        connected ← connect_any timeout lookup.bytes
        ask Call.freeaddrinfo
        pure (on_none connected))
  where
    on_none : Option ℕ → Option ℕ × Bytes
    on_none none = (none, codes "TCP connection failed or timed out")
    on_none (some fd) = (some fd, [])
