-- ===== src/Ssh/Trust/Silence.antt =====
-- The functions of Ssh/Network, and the closing functions of Ssh/Handshake, send no credentials.
use tabssh_harmonyos.Prelude.{ℕ, ◌≡◌, Bool, false, List, [], ◌∷◌, none, Bytes}
use tabssh_harmonyos.Prelude.Int.{ℤ}
use tabssh_harmonyos.Ssh.Calls.{Call, Reply, Io}
use tabssh_harmonyos.Ssh.Effects.{
  is_credential, Silent, Silent-pure, Silent-bind, Silent-on_pointer, silent_rules,
}
use tabssh_harmonyos.Ssh.Network.{
  deadline_after, remaining_milliseconds, poll_loop, wait_ready, wait_socket, retry, session_error,
  connect_any, connect_address, connect_fd, check_connected, give_up, connect_tcp,
}

pub deadline_after-Silent : (t : ℕ) → Silent (deadline_after t)
unfolding deadline_after is_credential
deadline_after-Silent t = search silent_rules

remaining-Silent : (t : ℕ) → Silent (remaining_milliseconds t)
unfolding remaining_milliseconds is_credential
remaining-Silent t = search silent_rules

poll_loop-Silent : (fd : ℕ) (i o : Bool) (t : ℕ) → Silent (poll_loop fd i o t)
unfolding poll_loop is_credential
poll_loop-Silent fd i o t = search silent_rules depth 7

wait_ready-Silent : (s fd t : ℕ) → Silent (wait_ready s fd t)
unfolding wait_ready is_credential
wait_ready-Silent s fd t = search (silent_rules, poll_loop-Silent) depth 7

pub wait_socket-Silent : (s fd t : ℕ) → Silent (wait_socket s fd t)
unfolding wait_socket is_credential
wait_socket-Silent s fd t = search (silent_rules, wait_ready-Silent, remaining-Silent) depth 7

pub retry-Silent :
    (c : Call) (wait : Io Bool) → is_credential c ≡ false → Silent wait → Silent (retry c wait)
unfolding retry
retry-Silent c wait h w = search silent_rules depth 8

pub session_error-Silent : (s : ℕ) (m : Bytes) → Silent (session_error s m)
unfolding session_error is_credential
session_error-Silent s m = search silent_rules

give_up-Silent : (fd : ℕ) → Silent (give_up fd)
unfolding give_up is_credential
give_up-Silent fd = search silent_rules

check_connected-Silent : (fd : ℕ) (r : Reply) → Silent (check_connected fd r)
unfolding check_connected is_credential
check_connected-Silent fd r = search (silent_rules, give_up-Silent) depth 8

connect_fd-Silent : (t a fd : ℕ) → Silent (connect_fd t a fd)
unfolding connect_fd is_credential
connect_fd-Silent t a fd =
    search (silent_rules, give_up-Silent, poll_loop-Silent, check_connected-Silent) depth 9

connect_address-Silent : (t a : ℕ) → Silent (connect_address t a)
unfolding connect_address is_credential
connect_address-Silent t a = search (silent_rules, connect_fd-Silent)

connect_any-Silent : (t : ℕ) (l : List ℕ) → Silent (connect_any t l)
unfolding connect_any
connect_any-Silent t [] = Silent-pure none
connect_any-Silent t (a ∷ l) =
    let ih = connect_any-Silent t l in
    Silent-bind _ _ (connect_address-Silent t a)
      (λ o. Silent-on_pointer o _ _ ih (λ fd. Silent-pure _))

pub connect_tcp-Silent : (host : Bytes) (port : ℤ) (t : ℕ) → Silent (connect_tcp host port t)
unfolding connect_tcp is_credential
connect_tcp-Silent host port t = search (silent_rules, connect_any-Silent) depth 9
