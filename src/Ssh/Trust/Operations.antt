-- ===== src/Ssh/Trust/Operations.antt =====
-- The operations of entry/src/main/cpp/native_ssh_libssh2.cpp other than `Connect` send no credentials,
-- and those on channels leave the sessions as they are.
use tabssh_harmonyos.Prelude.{
  ℕ, ◌≡◌, refl, Bool, not, ◌||◌, [], ◌∷◌, Option, none, some, Bytes, arith,
}
use tabssh_harmonyos.Prelude.Int.{ℤ, pos, ltb_ℤ, eqb_ℤ}
use tabssh_harmonyos.Prelude.Map.{Map}
use tabssh_harmonyos.Ssh.Calls.{Reply, Io}
use tabssh_harmonyos.Ssh.Channel.{
  close_channel_internal, open_again, open_blocked, open_round, accept_request, start_shell,
  open_shell_on, open_shell_found, open_shell, after_resize, resize_on, resize_found, resize,
  close_if_open, close_found, close_channel,
}
use tabssh_harmonyos.Ssh.Disconnect.{belongs_to, close_channels}
use tabssh_harmonyos.Ssh.Effects.{
  is_credential, Quiet, Quiet-pure, Quiet-after, Quiet-either, Quiet-on_pointer, Quiet-ask, Silent,
  Silent-pure, Silent-bind, Silent-if, Silent-loop, Silent-on_pointer, silent_rules,
}
use tabssh_harmonyos.Ssh.State.{SessionState, ChannelState, Core}
use tabssh_harmonyos.Ssh.Trust.Silence.{
  deadline_after-Silent, wait_socket-Silent, retry-Silent, session_error-Silent,
}

close_channel_internal-Silent : (s : SessionState) (c : ℕ) → Silent (close_channel_internal s c)
unfolding close_channel_internal is_credential
close_channel_internal-Silent s c =
    search (silent_rules, deadline_after-Silent, retry-Silent, wait_socket-Silent) depth 9

open_again-Silent : (s : SessionState) → Silent (open_again s)
unfolding open_again is_credential
open_again-Silent s = search silent_rules depth 6

open_blocked-Silent : (s : SessionState) (w : Io Bool) → Silent w → Silent (open_blocked s w)
unfolding open_blocked is_credential
open_blocked-Silent s w h = search silent_rules depth 10

open_round-Silent : (s : SessionState) (w : Io Bool) → Silent w → Silent (open_round s w)
unfolding open_round is_credential
open_round-Silent s w h =
    Silent-bind _ _ (Quiet-ask _ refl)
      (λ r. Silent-on_pointer r.pointer _ _ (open_blocked-Silent s w h) (λ p. Silent-pure _))

accept_request-Silent :
    (s : SessionState) (c : ℕ) (r : Option Reply) → Silent (accept_request s c r)
unfolding accept_request
accept_request-Silent s c none = search (silent_rules, close_channel_internal-Silent)
accept_request-Silent s c (some r) = search (silent_rules, close_channel_internal-Silent) depth 6

-- The result is about globals with the same sessions.
abbrev pub SameSessions : {A : Type 0} → Core → A × Core → Type 0
SameSessions core o = o.1.sessions ≡ core.sessions

start_shell-Quiet :
    (id : Bytes) (core : Core) (s : SessionState) (t c : ℕ)
    → Quiet (SameSessions core) (start_shell id core s t c)
unfolding start_shell is_credential
start_shell-Quiet id core s t c =
    Quiet-after _ _ (retry-Silent _ _ refl (wait_socket-Silent _ _ t)) λ r.
      Quiet-after _ _ (accept_request-Silent s c r) λ has_terminal.
        Quiet-either (not has_terminal) _ _ (Quiet-pure _ refl) (
          Quiet-after _ _ (retry-Silent _ _ refl (wait_socket-Silent _ _ t)) λ q.
            Quiet-after _ _ (accept_request-Silent s c q) λ has_shell. Quiet-pure _ (ground arith))

open_shell_on-Quiet :
    (id : Bytes) (core : Core) (s : SessionState)
    → Quiet (SameSessions core) (open_shell_on id core s)
unfolding open_shell_on
open_shell_on-Quiet id core s = Quiet-after _ _ (deadline_after-Silent _) λ t.
    Quiet-after _ _ (Silent-loop _ tt (λ _. open_round-Silent s _ (wait_socket-Silent _ _ t)))
      λ c. Quiet-on_pointer c _ _ (Quiet-pure _ refl) (start_shell-Quiet id core s t)

open_shell_found-Quiet :
    (id : Bytes) (core : Core) (o : Option SessionState)
    → Quiet (SameSessions core) (open_shell_found id core o)
unfolding open_shell_found
open_shell_found-Quiet id core none = Quiet-pure _ refl
open_shell_found-Quiet id core (some s) = open_shell_on-Quiet id core s

pub open_shell-Quiet : (id : Bytes) (core : Core) → Quiet (SameSessions core) (open_shell id core)
unfolding open_shell
open_shell-Quiet id core = open_shell_found-Quiet id core _

after_resize-Quiet :
    (id : Bytes) (c : ChannelState) (cols rows : ℤ) (s : SessionState) (core : Core)
    (r : Option Reply)
    → Quiet (SameSessions core) (after_resize id c cols rows s core r)
unfolding after_resize
after_resize-Quiet id c cols rows s core none = Quiet-pure _ refl
after_resize-Quiet id c cols rows s core (some r) =
    Quiet-either (not (eqb_ℤ r.value (pos 0))) _ _
      (Quiet-after _ _ (session_error-Silent _ _) (λ _. Quiet-pure _ refl)) (Quiet-pure _ refl)

resize_on-Quiet :
    (id : Bytes) (c : ChannelState) (cols rows : ℤ) (core : Core) (o : Option SessionState)
    → Quiet (SameSessions core) (resize_on id c cols rows core o)
unfolding resize_on is_credential
resize_on-Quiet id c cols rows core none = Quiet-pure _ refl
resize_on-Quiet id c cols rows core (some s) = Quiet-after _ _ (deadline_after-Silent _) λ t.
    Quiet-after _ _ (retry-Silent _ _ refl (wait_socket-Silent _ _ t))
      (after_resize-Quiet id c cols rows s core)

resize_found-Quiet :
    (id : Bytes) (cols rows : ℤ) (core : Core) (o : Option ChannelState)
    → Quiet (SameSessions core) (resize_found id cols rows core o)
unfolding resize_found
resize_found-Quiet id cols rows core none = Quiet-pure _ refl
resize_found-Quiet id cols rows core (some c) = resize_on-Quiet id c cols rows core _

pub resize-Quiet :
    (id : Bytes) (cols rows : ℤ) (core : Core)
    → Quiet (SameSessions core) (resize id cols rows core)
unfolding resize
resize-Quiet id cols rows core =
    Quiet-either (ltb_ℤ cols (pos 1) || ltb_ℤ rows (pos 1)) _ _ (Quiet-pure _ refl)
      (resize_found-Quiet id cols rows core _)

close_if_open-Silent : (c : ChannelState) (o : Option SessionState) → Silent (close_if_open c o)
unfolding close_if_open
close_if_open-Silent c none = Silent-pure tt
close_if_open-Silent c (some s) =
    Quiet-on_pointer s.session _ _ (Silent-pure tt) (λ _. close_channel_internal-Silent s c.channel)

close_found-Quiet :
    (id : Bytes) (core : Core) (o : Option ChannelState)
    → Quiet (SameSessions core) (close_found id core o)
unfolding close_found
close_found-Quiet id core none = Quiet-pure _ refl
close_found-Quiet id core (some c) =
    Quiet-after _ _ (close_if_open-Silent c _) (λ _. Quiet-pure _ refl)

pub close_channel-Quiet :
    (id : Bytes) (core : Core) → Quiet (SameSessions core) (close_channel id core)
unfolding close_channel
close_channel-Quiet id core = close_found-Quiet id core _

pub close_channels-Silent :
    (id : Bytes) (s : SessionState) (m : Map ChannelState) → Silent (close_channels id s m)
unfolding close_channels
close_channels-Silent id s [] = Silent-pure tt
close_channels-Silent id s ((k, c) ∷ m) =
    let ih = close_channels-Silent id s m in
    Silent-if (belongs_to id k c) _ _
      (Silent-bind _ _ (close_channel_internal-Silent s c.channel) (λ _. ih)) ih
