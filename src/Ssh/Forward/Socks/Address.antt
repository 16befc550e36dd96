-- ===== src/Ssh/Forward/Socks/Address.antt =====
-- How `HandleSocksClient` of entry/src/main/cpp/native_ssh_libssh2.cpp reads the host, and how it gives up.
use tabssh_harmonyos.Prelude.{
  ℕ, ◌≡◌, ◌≢◌, refl, sym, ap, ◌∙◌, false, ◌⊎◌, inl, inr, [], ◌∷◌, ◌++◌, Option, none, some, Bytes,
  append_assoc, arith, length, ◌==◌, ==_iff,
}
use tabssh_harmonyos.Ssh.Calls.{Call, Env, Log}
use tabssh_harmonyos.Ssh.Effects.{After, After-bind, After-if, After-pure}
use tabssh_harmonyos.Ssh.Effects.Runs.{After-ask, After-on_pointer, After-then}
use tabssh_harmonyos.Ssh.Forward.Socks.{
  byte_of, close_client, refuse, read_address, take_name, read_name, read_host,
}
use tabssh_harmonyos.Ssh.Forward.Socks.Reading.{
  SocketReadFills, heard, Exactly, read_socket_exact-After,
}

-- An address of a kind, and its host: four or sixteen bytes and their text, or a name behind its length.
abbrev pub Names : Env → ℕ → Bytes → Bytes → Type 0
Names env kind address host =
    ((kind ≡ 3) × (address ≡ length host ∷ host) × (host ≢ []))
    ⊎ ((log : Log) × (((kind ≡ 1) × (length address ≡ 4)) ⊎ ((kind ≡ 4) × (length address ≡ 16)))
        × (host ≡ (env.answer log (Call.inet_ntop address)).bytes))

some_byte : {n : ℕ} → (n == 0) ≡ false → n ≡ 0 → ⊥
some_byte {n} p z = ground (arith, ==_iff n 0)

pub one_byte : (text : Bytes) → length text ≡ 1 → text ≡ byte_of 0 text ∷ []
unfolding byte_of
one_byte [] h = absurd (omega arith)
one_byte (a ∷ []) h = refl
one_byte (a ∷ b ∷ text) h = absurd (omega arith)

module _ {A : Type 0} (Q : Option A → Log → Type 0) (nothing : (log : Log) → Q none log)
    (client : ℕ) (env : Env) (log : Log) where
  pub close_client-After : After Q (close_client client env log)
  close_client-After =
      let close = Call.close_fd client in
      After-ask Q env log close _ (After-pure Q none env (close ∷ log) (nothing (close ∷ log)))

  pub refuse-After : (code : ℕ) → After Q (refuse client code env log)
  refuse-After code = After-then Q _ _ env log λ sent l.
      let close = Call.close_fd client in
      After-ask Q env l close _ (After-pure Q none env (close ∷ l) (nothing (close ∷ l)))

module _ (env : Env) (fills : SocketReadFills env) (client : ℕ) where
  -- With so much heard before the address.
  abbrev pub HostRead : Bytes → ℕ → Option Bytes → Log → Type 0
  HostRead x kind none log = Unit {0}
  HostRead x kind (some host) log =
      (address : Bytes) × (heard client env log ≡ x ++ address) × Names env kind address host

  read_address-After :
      (x : Bytes) (kind n : ℕ) (o : Option Bytes) (log : Log)
      → ((kind ≡ 1) × (n ≡ 4)) ⊎ ((kind ≡ 4) × (n ≡ 16))
      → Exactly env fills client n x o log
      → After (HostRead x kind) (read_address client o env log)
  unfolding read_address
  read_address-After x kind n none log k h =
      refuse-After (HostRead x kind) (λ _. tt) client env log 8
  read_address-After x kind n (some bytes) log k (e, size) =
      let call = Call.inet_ntop bytes in
      let Q = HostRead x kind in
      After-ask Q env log call _ (
        After-on_pointer Q env (call ∷ log) (env.answer log call).pointer _ _
          (λ _. refuse-After Q (λ _. tt) client env (call ∷ log) 8)
          (λ _ _. After-pure Q _ env (call ∷ log) (bytes, e, inr (log, sized k, refl))))
    where
      sized :
          ((kind ≡ 1) × (n ≡ 4)) ⊎ ((kind ≡ 4) × (n ≡ 16))
          → ((kind ≡ 1) × (length bytes ≡ 4)) ⊎ ((kind ≡ 4) × (length bytes ≡ 16))
      sized (inl (p, q)) = inl (p, size ∙ q)
      sized (inr (p, q)) = inr (p, size ∙ q)

  read_name-After :
      (x : Bytes) (kind : ℕ) (o : Option Bytes) (log : Log)
      → kind ≡ 3
      → Exactly env fills client 1 x o log
      → After (HostRead x kind) (read_name client o env log)
  unfolding read_name
  read_name-After x kind none log k h = refuse-After (HostRead x kind) (λ _. tt) client env log 8
  read_name-After x kind (some size) log k (e, one) =
      let Q = HostRead x kind in
      let n = byte_of 0 size in
      After-if Q (n == 0) _ _ env log (λ _. refuse-After Q (λ _. tt) client env log 8)
        λ some_bytes.
          After-bind (Exactly env fills client n (x ++ size)) Q _ _ env log
            (read_socket_exact-After env fills client n (x ++ size) log e) (named some_bytes)
    where
      named :
          (byte_of 0 size == 0) ≡ false
          → (o : Option Bytes) (l : Log) → Exactly env fills client (byte_of 0 size) (x ++ size) o l
          → After (HostRead x kind) (take_name client o env l)
      named p none l h =
          unfold take_name in close_client-After (HostRead x kind) (λ _. tt) client env l
      named p (some host) l (e', n) =
          unfold take_name in
          After-pure (HostRead x kind) _ env l (
            size ++ host,
            e' ∙ append_assoc x size host,
            inl (
              k,
              ap (λ t. t ++ host) (one_byte size one) ∙ ap (λ m. m ∷ host) (sym n),
              λ q. some_byte p (sym n ∙ ap length q),
            ),
          )

  pub read_host-After :
      (x : Bytes) (kind : ℕ) (log : Log)
      → heard client env log ≡ x
      → After (HostRead x kind) (read_host client kind env log)
  unfolding read_host
  read_host-After x kind log e =
      let Q = HostRead x kind in
      After-if Q (kind == 1) _ _ env log
        (λ k.
          After-bind (Exactly env fills client 4 x) Q _ _ env log
            (read_socket_exact-After env fills client 4 x log e)
            (λ o l h. read_address-After x kind 4 o l (inl ((==_iff kind 1).0 k, refl)) h))
        λ _.
          After-if Q (kind == 3) _ _ env log
            (λ k.
              After-bind (Exactly env fills client 1 x) Q _ _ env log
                (read_socket_exact-After env fills client 1 x log e)
                (λ o l h. read_name-After x kind o l ((==_iff kind 3).0 k) h))
            λ _.
              After-if Q (kind == 4) _ _ env log
                (λ k.
                  After-bind (Exactly env fills client 16 x) Q _ _ env log
                    (read_socket_exact-After env fills client 16 x log e)
                    (λ o l h. read_address-After x kind 16 o l (inr ((==_iff kind 4).0 k, refl)) h))
                (λ _. refuse-After Q (λ _. tt) client env log 8)
