-- ===== src/Ssh/Forward/Adding/Listeners.antt =====
-- `AddLocalForward` and `AddDynamicForward` of entry/src/main/cpp/native_ssh_libssh2.cpp leave no listener
-- open but that of a forward in the table.
use tabssh_harmonyos.Prelude.{
  ℕ, ◌≡◌, refl, ap, ◌∙◌, not, ◌⊎◌, inl, inr, List, [], ◌∷◌, Option, none, some, Bytes, ◌==◌, ==_iff,
  if◌then◌else◌,
}
use tabssh_harmonyos.Prelude.Int.{pos, eqb_ℤ}
use tabssh_harmonyos.Prelude.Map.{Map, insert}
use tabssh_harmonyos.Ssh.Calls.{Call, Reply, Env, Log}
use tabssh_harmonyos.Ssh.Effects.{After, After-bind, After-if, After-pure}
use tabssh_harmonyos.Ssh.Effects.Held.{View, seen}
use tabssh_harmonyos.Ssh.Effects.Runs.{After-ask, After-look, After-on_pointer}
use tabssh_harmonyos.Ssh.Forward.Adding.{register_forward, listen_forward}
use tabssh_harmonyos.Ssh.Forward.Table.{
  ForwardState, give_up_listener, prepare_listener, create_loopback_listener,
}
use tabssh_harmonyos.Ssh.State.{SessionState}
use tabssh_harmonyos.Ssh.Trust.Globals.{After-eq}

abbrev pub add_fd : Option ℕ → List ℕ → List ℕ
add_fd none fds = fds
add_fd (some p) fds = p ∷ fds

abbrev pub remove_fd : ℕ → List ℕ → List ℕ
remove_fd p [] = []
remove_fd p (q ∷ fds) = if q == p then fds else q ∷ remove_fd p fds

abbrev pub hold : Call → Reply → List ℕ → List ℕ
hold Call.listener_socket r fds = add_fd r.pointer fds
hold (Call.close_fd p) r fds = remove_fd p fds
hold _ r fds = fds

-- The listening sockets that are open.
abbrev pub open_listeners : View (List ℕ)
open_listeners = seen hold []

remove_fd_self : (p : ℕ) (fds : List ℕ) → remove_fd p (p ∷ fds) ≡ fds
remove_fd_self p fds = rw ((==_iff p p).1 refl) refl

module _ (env : Env) (fds : List ℕ) where
  abbrev Created : Option ℕ → Log → Type 0
  Created o log = open_listeners env log ≡ add_fd o fds

  give_up_listener-After :
      (p : ℕ) (log : Log)
      → open_listeners env log ≡ p ∷ fds
      → After Created (give_up_listener p env log)
  give_up_listener-After p log e =
      let close = Call.close_fd p in
      After-ask Created env log close _
        (After-pure Created none env (close ∷ log) (ap (remove_fd p) e ∙ remove_fd_self p fds))

  prepare_listener-After :
      (port p : ℕ) (log : Log)
      → open_listeners env log ≡ p ∷ fds
      → After Created (prepare_listener port p env log)
  unfolding prepare_listener
  prepare_listener-After port p log e =
      let bind = Call.bind_loopback p port in
      let listen = Call.listen_on p 16 in
      let make = Call.set_nonblocking p in
      let l = make ∷ listen ∷ bind ∷ log in
      After-ask Created env log bind _ (
        After-if Created (not (eqb_ℤ (env.answer log bind).value (pos 0))) _ _ env (bind ∷ log)
          (λ _. give_up_listener-After p (bind ∷ log) e)
          λ _. After-ask Created env (bind ∷ log) listen _ (
            After-if Created (not (eqb_ℤ (env.answer (bind ∷ log) listen).value (pos 0))) _ _ env
              (listen ∷ bind ∷ log) (λ _. give_up_listener-After p (listen ∷ bind ∷ log) e)
              λ _. After-ask Created env (listen ∷ bind ∷ log) make _ (
                After-if Created (not (eqb_ℤ (env.answer (listen ∷ bind ∷ log) make).value (pos 0)))
                  _ _ env l (λ _. give_up_listener-After p l e)
                  (λ _. After-pure Created (some p) env l e))))

  create_loopback_listener-After :
      (port : ℕ) (log : Log)
      → open_listeners env log ≡ fds
      → After Created (create_loopback_listener port env log)
  unfolding create_loopback_listener
  create_loopback_listener-After port log e =
      let call = Call.listener_socket in
      let r = env.answer log call in
      After-ask Created env log call _ (
        After-on_pointer Created env (call ∷ log) r.pointer _ _
          (λ h.
            After-pure Created none env (call ∷ log)
              (ap (add_fd r.pointer) e ∙ ap (λ o. add_fd o fds) h))
          (λ p h.
            prepare_listener-After port p (call ∷ log)
              (ap (add_fd r.pointer) e ∙ ap (λ o. add_fd o fds) h)))

  -- A forward in the table with the only new listener, or neither.
  abbrev pub Added : ForwardState → Map ForwardState → Bytes × Map ForwardState → Log → Type 0
  Added s forwards o log =
      ((o.0 ≡ []) × (o.1 ≡ forwards) × (open_listeners env log ≡ fds))
      ⊎ ((p : ℕ) × (o.0 ≡ s.id)
          × (o.1 ≡ insert s.id (record s { listen_fd = some p }) forwards)
          × (open_listeners env log ≡ p ∷ fds))

  register_forward-After :
      (s : ForwardState) (p : ℕ) (forwards : Map ForwardState) (o : Option SessionState) (log : Log)
      → open_listeners env log ≡ p ∷ fds
      → After (Added s forwards) (register_forward s p forwards o env log)
  unfolding register_forward
  register_forward-After s p forwards none log e =
      let close = Call.close_fd p in
      After-ask (Added s forwards) env log close _ (
        After-pure (Added s forwards) ([], forwards) env (close ∷ log)
          (inl (refl, refl, ap (remove_fd p) e ∙ remove_fd_self p fds)))
  register_forward-After s p forwards (some session) log e =
      let Q = Added s forwards in
      let begin = Call.start_thread s.id in
      let close = Call.close_fd p in
      After-ask Q env log begin _ (
        After-if Q (not (eqb_ℤ (env.answer log begin).value (pos 0))) _ _ env (begin ∷ log)
          (λ _. After-ask Q env (begin ∷ log) close _ (
            After-pure Q ([], forwards) env (close ∷ begin ∷ log)
              (inl (refl, refl, ap (remove_fd p) e ∙ remove_fd_self p fds))))
          (λ _. After-pure Q _ env (begin ∷ log) (inr (p, refl, refl, e))))

  listen_forward-After :
      (s : ForwardState) (forwards : Map ForwardState) (log : Log)
      → open_listeners env log ≡ fds
      → After (Added s forwards) (listen_forward s forwards env log)
  unfolding listen_forward
  listen_forward-After s forwards log e =
      let Q = Added s forwards in
      After-bind Created Q _ _ env log (create_loopback_listener-After s.bind_port log e) λ o l h.
        After-on_pointer Q env l o _ _
          (λ k. After-pure Q ([], forwards) env l (inl (refl, refl, h ∙ ap (λ x. add_fd x fds) k)))
          (λ p k.
            After-look Q env l _
              (register_forward-After s p forwards _ l (h ∙ ap (λ x. add_fd x fds) k)))

-- Whatever the sockets and the other threads do, once a forward has its id, AddLocalForward and
-- AddDynamicForward either give the id, with the forward in the table and its listener the only new one
-- that is open, or give the empty text, with the table as it was and no new listener open.
pub listen_forward-Added :
    (env : Env) (state : ForwardState) (forwards : Map ForwardState) (log : Log)
    {o : Bytes × Map ForwardState} {log' : Log}
    → listen_forward state forwards env log ≡ some (o, log')
    → Added env (open_listeners env log) state forwards o log'
listen_forward-Added env state forwards log e =
    After-eq (Added env (open_listeners env log) state forwards) _ _ _
      (listen_forward-After env (open_listeners env log) state forwards log refl) e
