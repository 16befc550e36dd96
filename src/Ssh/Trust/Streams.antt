-- ===== src/Ssh/Trust/Streams.antt =====
-- `Write` and `Read` of entry/src/main/cpp/native_ssh_libssh2.cpp send no credentials.
use tabssh_harmonyos.Prelude.{ℕ, refl, Bool, not, ◌&&◌, Option, none, some, Bytes, ltb, length}
use tabssh_harmonyos.Prelude.Int.{ℤ, pos, eqb_ℤ}
use tabssh_harmonyos.Ssh.Calls.{Reply, Io}
use tabssh_harmonyos.Ssh.Effects.{
  is_credential, Quiet-ask, Quiet-test_again, Silent, Silent-pure, Silent-bind, Silent-if,
  Silent-loop, silent_rules,
}
use tabssh_harmonyos.Ssh.State.{SessionState, ChannelState, Core}
use tabssh_harmonyos.Ssh.Terminal.{
  Drained, write_reply, write_round, write_on, write_found, write, read_round, read_stream,
  next_stream, read_streams, finish_read, read_alive, read_on, read_found, read,
}
use tabssh_harmonyos.Ssh.Trust.Silence.{
  deadline_after-Silent, wait_socket-Silent, session_error-Silent,
}

write_reply-Silent :
    (s : SessionState) (w : Io Bool) (n : ℕ) (r : Reply) (b : Bool)
    → Silent w
    → Silent (write_reply s w n r b)
unfolding write_reply
write_reply-Silent s w n r b h = search (silent_rules, session_error-Silent) depth 8

write_round-Silent :
    (s : SessionState) (w : Io Bool) (c : ℕ) (text : Bytes) (n : ℕ)
    → Silent w
    → Silent (write_round s w c text n)
unfolding write_round is_credential
write_round-Silent s w c text n h =
    Silent-if (ltb n (length text)) _ _
      (Silent-bind _ _ (Quiet-ask _ refl)
        λ r. Silent-bind _ _ (Quiet-test_again r) (λ b. write_reply-Silent s w n r b h))
      (Silent-pure _)

write_on-Silent :
    (c : ChannelState) (text : Bytes) (o : Option SessionState) → Silent (write_on c text o)
unfolding write_on
write_on-Silent c text none = Silent-pure _
write_on-Silent c text (some s) =
    Silent-bind _ _ (deadline_after-Silent _)
      λ t. Silent-loop _ 0 (λ n. write_round-Silent s _ _ text n (wait_socket-Silent _ _ t))

write_found-Silent :
    (text : Bytes) (core : Core) (o : Option ChannelState) → Silent (write_found text core o)
unfolding write_found
write_found-Silent text core none = Silent-pure _
write_found-Silent text core (some c) = write_on-Silent c text _

pub write-Silent : (id text : Bytes) (core : Core) → Silent (write id text core)
unfolding write
write-Silent id text core = write_found-Silent text core _

read_round-Silent : (c stream : ℕ) (output : Bytes) → Silent (read_round c stream output)
unfolding read_round is_credential
read_round-Silent c stream output =
    Silent-if (ltb (length output) 262144) _ _
      (Silent-bind _ _ (Quiet-ask _ refl)
        λ r. Silent-bind _ _ (Quiet-test_again r) (λ b. Silent-pure _))
      (Silent-pure _)

read_stream-Silent : (c stream : ℕ) (output : Bytes) → Silent (read_stream c stream output)
unfolding read_stream
read_stream-Silent c stream output = Silent-loop _ output (read_round-Silent c stream)

next_stream-Silent : (c : ℕ) (d : Drained) (o : Option ℤ) → Silent (next_stream c d o)
unfolding next_stream
next_stream-Silent c d none = read_stream-Silent c 1 d.output
next_stream-Silent c d (some _) = Silent-pure d

read_streams-Silent : (c : ℕ) → Silent (read_streams c)
unfolding read_streams
read_streams-Silent c =
    Silent-bind _ _ (read_stream-Silent c 0 _) (λ d. next_stream-Silent c d d.failed)

finish_read-Silent :
    (c : ℕ) (s : SessionState) (d : Drained) (o : Option ℤ) → Silent (finish_read c s d o)
unfolding finish_read is_credential
finish_read-Silent c s d (some code) = search (silent_rules, session_error-Silent)
finish_read-Silent c s d none = search silent_rules depth 8

read_alive-Silent : (c : ℕ) (s : SessionState) (r : Reply) (b : Bool) → Silent (read_alive c s r b)
unfolding read_alive
read_alive-Silent c s r b =
    Silent-if (not (eqb_ℤ r.value (pos 0)) && not b) _ _
      (Silent-bind _ _ (session_error-Silent _ _) (λ m. Silent-pure _))
      (Silent-bind _ _ (read_streams-Silent c) (λ d. finish_read-Silent c s d d.failed))

read_on-Silent : (c : ChannelState) (o : Option SessionState) → Silent (read_on c o)
unfolding read_on is_credential
read_on-Silent c none = Silent-pure _
read_on-Silent c (some s) =
    Silent-bind _ _ (Quiet-ask _ refl)
      λ r. Silent-bind _ _ (Quiet-test_again r) (λ b. read_alive-Silent c.channel s r b)

read_found-Silent : (core : Core) (o : Option ChannelState) → Silent (read_found core o)
unfolding read_found
read_found-Silent core none = Silent-pure _
read_found-Silent core (some c) = read_on-Silent c _

pub read-Silent : (id : Bytes) (core : Core) → Silent (read id core)
unfolding read
read-Silent id core = read_found-Silent core _
