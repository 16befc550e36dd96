-- ===== src/Ssh/Forward/Socks/Requested.antt =====
-- What the negotiation of `HandleSocksClient` in entry/src/main/cpp/native_ssh_libssh2.cpp yields.
use tabssh_harmonyos.Prelude.{
  ℕ, ◌+◌, ◌*◌, ◌≤◌, ◌≡◌, refl, sym, ap, ◌∙◌, true, false, not, ◌||◌, [], ◌∷◌, ◌++◌, Option, none,
  some, Bytes, append_assoc, arith, length, ◌==◌, ==_iff,
}
use tabssh_harmonyos.Ssh.Calls.{Env, Log}
use tabssh_harmonyos.Ssh.Effects.{After, After-bind, After-if, After-pure}
use tabssh_harmonyos.Ssh.Effects.Runs.{After-Held, After-weaken}
use tabssh_harmonyos.Ssh.Forward.Socks.{
  byte_of, has_zero, is_valid_forward_port, Target, check_port, read_port, on_request, method_reply,
  on_methods, on_greeting, negotiate,
}
use tabssh_harmonyos.Ssh.Forward.Socks.Reading.{
  SocketReadFills, heard, Exactly, read_socket_exact-After, write_socket_exact-Held,
}
use tabssh_harmonyos.Ssh.Trust.Globals.{After-eq}
use tabssh_harmonyos.Ssh.Forward.Socks.Address
use tabssh_harmonyos.Ssh.Forward.Socks.Address.{
  Names, one_byte, close_client-After, refuse-After, read_host-After,
}

-- The bytes of a client that asks, without authentication, for a connection to a target.
abbrev pub Requests : Env → Bytes → Target → Type 0
Requests env request target =
    (methods : Bytes) × (kind : ℕ) × (address : Bytes) × (high : ℕ) × (low : ℕ) × (request
      ≡ (5 ∷ length methods ∷ [])
        ++ (methods ++ ((5 ∷ 1 ∷ 0 ∷ kind ∷ []) ++ (address ++ (high ∷ low ∷ [])))))
    × (has_zero methods ≡ true)
    × Names env kind address target.host
    × (target.port ≡ high * 256 + low)
    × (1 ≤ target.port)
    × (target.port ≤ 65535)

two_bytes : (text : Bytes) → length text ≡ 2 → text ≡ byte_of 0 text ∷ byte_of 1 text ∷ []
unfolding byte_of
two_bytes [] h = absurd (omega arith)
two_bytes (a ∷ text) h = ap (◌∷◌ a) (one_byte text (omega arith))

four_bytes :
    (text : Bytes)
    → length text ≡ 4
    → text ≡ byte_of 0 text ∷ byte_of 1 text ∷ byte_of 2 text ∷ byte_of 3 text ∷ []
unfolding byte_of
four_bytes [] h = absurd (omega arith)
four_bytes (a ∷ []) h = absurd (omega arith)
four_bytes (a ∷ b ∷ text) h = ap (λ t. a ∷ b ∷ t) (two_bytes text (omega arith))

in_range : (port : ℕ) → not (is_valid_forward_port port) ≡ false → (1 ≤ port) × (port ≤ 65535)
unfolding is_valid_forward_port
in_range port h = ground arith

version :
    (greeting : Bytes)
    → (not (byte_of 0 greeting == 5) || byte_of 1 greeting == 0) ≡ false
    → byte_of 0 greeting ≡ 5
version greeting p = ground (arith, ==_iff (byte_of 0 greeting) 5)

connect_request :
    (request : Bytes)
    → (not (byte_of 0 request == 5) || not (byte_of 2 request == 0)) ≡ false
    → not (byte_of 1 request == 1) ≡ false
    → (byte_of 0 request ∷ byte_of 1 request ∷ byte_of 2 request ∷ byte_of 3 request ∷ [])
      ≡ 5 ∷ 1 ∷ 0 ∷ byte_of 3 request ∷ []
connect_request request p q = ground (
  arith,
  ==_iff (byte_of 0 request) 5,
  ==_iff (byte_of 2 request) 0,
  ==_iff (byte_of 1 request) 1,
)

module _ (env : Env) (fills : SocketReadFills env) (client : ℕ) (b : Bytes) where
  abbrev HostRead : Bytes → ℕ → Option Bytes → Log → Type 0
  HostRead = Address.HostRead env fills client

  -- With so much heard before the kind of the address.
  abbrev Targeted : Bytes → ℕ → Option Target → Log → Type 0
  Targeted x kind none log = Unit {0}
  Targeted x kind (some target) log =
      (address : Bytes) × (high : ℕ) × (low : ℕ) × (heard client env log
        ≡ x ++ (address ++ (high ∷ low ∷ [])))
      × Names env kind address target.host
      × (target.port ≡ high * 256 + low)
      × (1 ≤ target.port)
      × (target.port ≤ 65535)

  check_port-After :
      (x : Bytes) (kind : ℕ) (address host : Bytes) (o : Option Bytes) (log : Log)
      → Names env kind address host
      → Exactly env fills client 2 (x ++ address) o log
      → After (Targeted x kind) (check_port client host o env log)
  unfolding check_port
  check_port-After x kind address host none log names h =
      close_client-After (Targeted x kind) (λ _. tt) client env log
  check_port-After x kind address host (some bytes) log names (e, size) =
      let Q = Targeted x kind in
      let port = byte_of 0 bytes * 256 + byte_of 1 bytes in
      After-if Q (not (is_valid_forward_port port)) _ _ env log
        (λ _. refuse-After Q (λ _. tt) client env log 1)
        (λ valid. After-pure Q _ env log (
          address,
          byte_of 0 bytes,
          byte_of 1 bytes,
          e ∙ append_assoc x address bytes ∙ ap (λ t. x ++ (address ++ t)) (two_bytes bytes size),
          names,
          refl,
          (in_range port valid).0,
          (in_range port valid).1,
        ))

  read_port-After :
      (x : Bytes) (kind : ℕ) (o : Option Bytes) (log : Log)
      → HostRead x kind o log
      → After (Targeted x kind) (read_port client o env log)
  unfolding read_port
  read_port-After x kind none log h = After-pure (Targeted x kind) none env log tt
  read_port-After x kind (some host) log (address, e, names) =
      After-bind (Exactly env fills client 2 (x ++ address)) (Targeted x kind) _ _ env log
        (read_socket_exact-After env fills client 2 (x ++ address) log e)
        (λ o l h. check_port-After x kind address host o l names h)

  abbrev Asked : Option Target → Log → Type 0
  Asked none log = Unit {0}
  Asked (some target) log =
      (request : Bytes) × (heard client env log ≡ b ++ request) × Requests env request target

  Targeted-Asked :
      (methods request : Bytes) (o : Option Target) (log : Log)
      → has_zero methods ≡ true
      → request ≡ 5 ∷ 1 ∷ 0 ∷ byte_of 3 request ∷ []
      → Targeted
          (b ++ ((5 ∷ length methods ∷ []) ++ (methods ++ request)))
          (byte_of 3 request)
          o
          log
      → Asked o log
  Targeted-Asked methods request none log z r h = tt
  Targeted-Asked methods request (some target) log z r
        (address, high, low, e, names, port, least, most) =
      (
        (5 ∷ length methods ∷ []) ++ (methods ++ (request ++ (address ++ (high ∷ low ∷ [])))),
        e
            ∙ append_assoc b ((5 ∷ length methods ∷ []) ++ (methods ++ request)) _
            ∙ ap (λ t. b ++ (5 ∷ length methods ∷ t)) (append_assoc methods request _),
        (
          methods,
          byte_of 3 request,
          address,
          high,
          low,
          ap (λ t. (5 ∷ length methods ∷ []) ++ (methods ++ (t ++ (address ++ (high ∷ low ∷ [])))))
              r,
          z,
          names,
          port,
          least,
          most,
        ),
      )

  on_request-After :
      (methods : Bytes) (o : Option Bytes) (log : Log)
      → has_zero methods ≡ true
      → Exactly env fills client 4 (b ++ ((5 ∷ length methods ∷ []) ++ methods)) o log
      → After Asked (on_request client o env log)
  unfolding on_request
  on_request-After methods none log z h = refuse-After Asked (λ _. tt) client env log 1
  on_request-After methods (some request) log z (e, size) =
      After-if Asked (not (byte_of 0 request == 5) || not (byte_of 2 request == 0)) _ _ env log
        (λ _. refuse-After Asked (λ _. tt) client env log 1)
        λ p.
          After-if Asked (not (byte_of 1 request == 1)) _ _ env log
            (λ _. refuse-After Asked (λ _. tt) client env log 7)
            λ q.
              let x = b ++ ((5 ∷ length methods ∷ []) ++ (methods ++ request)) in
              After-bind (HostRead x (byte_of 3 request)) Asked _ _ env log
                (read_host-After env fills client x (byte_of 3 request) log
                  (e ∙ append_assoc b ((5 ∷ length methods ∷ []) ++ methods) request))
                λ host l h.
                  After-weaken (Targeted x (byte_of 3 request)) Asked _
                    (λ o l'.
                      Targeted-Asked methods request o l' z
                        (four_bytes request size ∙ connect_request request p q))
                    (read_port-After x (byte_of 3 request) host l h)

  on_methods-After :
      (n : ℕ) (o : Option Bytes) (log : Log)
      → Exactly env fills client n (b ++ (5 ∷ n ∷ [])) o log
      → After Asked (on_methods client o env log)
  unfolding on_methods
  on_methods-After n none log h = close_client-After Asked (λ _. tt) client env log
  on_methods-After n (some methods) log (e, size) =
      After-Held Asked env log (heard client) (b ++ ((5 ∷ length methods ∷ []) ++ methods)) _ _
        (write_socket_exact-Held client client (method_reply methods))
        (e ∙ append_assoc b (5 ∷ n ∷ []) methods ∙ ap (λ m. b ++ (5 ∷ m ∷ methods)) (sym size))
        λ written l e'.
          After-if Asked (not written || not (has_zero methods)) _ _ env l
            (λ _. close_client-After Asked (λ _. tt) client env l)
            λ p.
              After-bind (Exactly env fills client 4 (b ++ ((5 ∷ length methods ∷ []) ++ methods)))
                Asked _ _ env l (read_socket_exact-After env fills client 4 _ l e')
                (λ o l' h. on_request-After methods o l' (ground arith) h)

  on_greeting-After :
      (o : Option Bytes) (log : Log)
      → Exactly env fills client 2 b o log
      → After Asked (on_greeting client o env log)
  unfolding on_greeting
  on_greeting-After none log h = close_client-After Asked (λ _. tt) client env log
  on_greeting-After (some greeting) log (e, size) =
      After-if Asked (not (byte_of 0 greeting == 5) || byte_of 1 greeting == 0) _ _ env log
        (λ _. close_client-After Asked (λ _. tt) client env log)
        λ p.
          let n = byte_of 1 greeting in
          let e' : heard client env log ≡ b ++ (5 ∷ n ∷ []) =
            e ∙ ap (◌++◌ b) (two_bytes greeting size ∙ ap (λ v. v ∷ n ∷ []) (version greeting p)) in
          After-bind (Exactly env fills client n (b ++ (5 ∷ n ∷ []))) Asked _ _ env log
            (read_socket_exact-After env fills client n _ log e')
            (λ o l h. on_methods-After n o l h)

  negotiate-After : (log : Log) → heard client env log ≡ b → After Asked (negotiate client env log)
  unfolding negotiate
  negotiate-After log e =
      After-bind (Exactly env fills client 2 b) Asked _ _ env log
        (read_socket_exact-After env fills client 2 b log e) on_greeting-After

-- Whatever a client sends and however its bytes arrive, the negotiation yields a target only if the
-- bytes that it has received are a greeting that offers no authentication and a request to connect to
-- that target, by name, IPv4 or IPv6 address, and the port is from 1 to 65535; if `recv` hands out as
-- many bytes as it reports.
pub negotiate-Requests :
    (env : Env) (client : ℕ) (log : Log) {target : Target} {log' : Log}
    → SocketReadFills env
    → negotiate client env log ≡ some (some target, log')
    → (request : Bytes) × (heard client env log' ≡ heard client env log ++ request)
      × Requests env request target
negotiate-Requests env client log fills e =
    After-eq (Asked env fills client (heard client env log)) _ _ _
      (negotiate-After env fills client (heard client env log) log refl) e
