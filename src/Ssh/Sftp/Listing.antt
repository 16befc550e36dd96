-- ===== src/Ssh/Sftp/Listing.antt =====
-- `SftpList` of entry/src/main/cpp/native_ssh_libssh2.cpp.
use tabssh_harmonyos.Prelude.{
  ℕ, Bool, true, false, not, ◌||◌, ◌⊎◌, inl, inr, [], ◌∷◌, ◌++◌, Option, none, some, Bytes, codes,
  decimal, equal, is_empty, take, ◌==◌, if◌then◌else◌,
}
use tabssh_harmonyos.Prelude.Int.{pos, negsuc, pos_part, ltb_ℤ, eqb_ℤ}
use tabssh_harmonyos.Json.Escape.{escape_json}
use tabssh_harmonyos.Json.Result.{NativeResult}
use tabssh_harmonyos.Profile.{success, failure, timeout}
use tabssh_harmonyos.Ssh.Calls.{
  Call, Reply, Attributes, Io, pure, ◌>>=◌, ◌>>◌, ask, test_again, Turn, again, done, loop,
}
use tabssh_harmonyos.Ssh.Channel.{wait_for_channel}
use tabssh_harmonyos.Ssh.Network.{retry, session_error}
use tabssh_harmonyos.Ssh.Sftp.{Acquired, got, timed_out, refused, acquire, on_sftp}
use tabssh_harmonyos.Ssh.State.{SessionState, raw, Core}

-- `back() != '/'` on a text that is not empty.
unfoldable pub ends_open : Bytes → Bool
ends_open [] = true
ends_open (c ∷ []) = not (c == b'/')
ends_open (c ∷ d ∷ s) = ends_open (d ∷ s)

unfoldable pub full_path : Bytes → Bytes → Bytes
unfolding ends_open
full_path path name =
    let base : Bytes = if is_empty path then codes "/" else path in
    (if ends_open base then base ++ codes "/" else base) ++ name

abbrev pub or_zero : Option ℕ → ℕ
or_zero none = 0
or_zero (some n) = n

abbrev pub or_false : Option Bool → Bool
or_false none = false
or_false (some b) = b

unfoldable pub print_entry : Bytes → Bytes → Attributes → Bytes
unfolding full_path
print_entry path name attributes =
    codes "{\"name\":\""
    ++ escape_json name
    ++ codes "\",\"path\":\""
    ++ escape_json (full_path path name)
    ++ codes "\",\"type\":\""
    ++ (if or_false attributes.is_directory then codes "dir" else codes "file")
    ++ codes "\",\"size\":"
    ++ decimal (or_zero attributes.file_size)
    ++ codes ",\"modifiedTime\":\""
    ++ decimal (or_zero attributes.modified)
    ++ codes "\"}"

-- The text so far, and whether no entry has been printed.
pub record Listed : Type 0 where
  pub entries : Bytes
  pub first : Bool

unfoldable pub is_dots : Bytes → Bool
is_dots name = equal name (codes ".") || equal name (codes "..")

unfoldable pub add_entry : Bytes → Bytes → Attributes → Listed → Listed
unfolding is_dots print_entry
add_entry path name attributes listed = if is_dots name then listed else record {
  entries =
      listed.entries
      ++ ((if listed.first then [] else codes ",") ++ print_entry path name attributes);
  first = false;
}

unfoldable pub attributes_of : Reply → Io Attributes
attributes_of reply env log = some (env.attributes reply.number, log)

-- A listing that fails: the directory is closed by one call.
unfoldable pub abandon : ℕ → Io NativeResult → Io (Turn Listed (NativeResult ⊎ Listed))
abandon directory result =
    ask (Call.sftp_closedir directory) >> (result >>= λ r. pure (done (inl r)))

unfoldable pub list_reply :
    SessionState
    → Io Bool
    → Bytes
    → ℕ
    → Listed
    → Reply
    → Bool
    → Io (Turn Listed (NativeResult ⊎ Listed))
unfolding abandon
list_reply session wait path directory listed reply blocked =
    if blocked
    then (wait >>= λ ready.
        if ready
        then pure (again listed)
        else abandon directory (pure (failure timeout (codes "SFTP listing timed out") [])))
    else if ltb_ℤ reply.value (pos 0)
    then abandon directory (
        session_error (raw session.session) (codes "SFTP listing failed") >>= λ message.
        pure (failure reply.value message []))
    else if eqb_ℤ reply.value (pos 0)
    then pure (done (inr listed))
    else (attributes_of reply >>= λ attributes.
        pure (again (add_entry path (take (pos_part reply.value) reply.bytes) attributes listed)))

unfoldable pub list_round :
    SessionState → Io Bool → Bytes → ℕ → Listed → Io (Turn Listed (NativeResult ⊎ Listed))
unfolding list_reply
list_round session wait path directory listed = do
  reply ← ask (Call.sftp_readdir directory 4096)
  blocked ← test_again reply
  list_reply session wait path directory listed reply blocked

unfoldable pub finish_listing : Io Bool → ℕ → NativeResult ⊎ Listed → Io NativeResult
finish_listing wait directory (inl result) = pure result
finish_listing wait directory (inr listed) =
    retry (Call.sftp_closedir directory) wait
    >> pure (success (codes "sftp list") (listed.entries ++ codes "]"))

unfoldable pub list_directory : SessionState → Io Bool → Bytes → Acquired → Io NativeResult
unfolding list_round finish_listing
list_directory session wait path (got directory) =
    loop (list_round session wait path directory) (record { entries = codes "["; first = true })
    >>= finish_listing wait directory
list_directory session wait path timed_out =
    pure (failure timeout (codes "SFTP directory open timed out") [])
list_directory session wait path refused =
    session_error (raw session.session) (codes "SFTP directory open failed") >>= λ message.
    pure (failure (negsuc 0) message [])

unfoldable pub list_body : Bytes → SessionState → ℕ → Io NativeResult
unfolding list_directory
list_body path session deadline =
    let wait = wait_for_channel session deadline in
    acquire session (Call.sftp_opendir (raw session.sftp) path) wait
    >>= list_directory session wait path

unfoldable pub sftp_list : Bytes → Bytes → Core → Io (NativeResult × Core)
unfolding list_body
sftp_list session_id path core = on_sftp session_id core (list_body path)
