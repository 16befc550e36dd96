-- ===== src/Mock.antt =====
-- entry/src/main/cpp/native_ssh_mock.cpp: the core that is built without libssh2. Every operation
-- holds `g_mutex`, or is split where it takes it twice (`CreateSession` and `OpenShell` take it in
-- `NextId` and again), and is here one step on the globals.
pub mod Shell
pub mod Sessions
use tabssh_harmonyos.Prelude.{
  ℕ, ◌+◌, ◌%◌, ◌^◌, Bool, true, false, ◌||◌, [], ◌∷◌, ◌++◌, Option, none, some, Bytes, codes,
  decimal, equal, starts_with, drop, ◌==◌, if◌then◌else◌,
}
use tabssh_harmonyos.Prelude.Int.{ℤ, pos}
use tabssh_harmonyos.Prelude.Map.{Map, lookup, insert, erase, erase_if}
use tabssh_harmonyos.Json.Result.{NativeResult}
use tabssh_harmonyos.Profile.{success, failure, secure_clear}

pub record SessionState : Type 0 where
  pub connected : Bool

pub record ChannelState : Type 0 where
  pub session_id : Bytes
  pub pending_output : Bytes
  pub cols : ℤ
  pub rows : ℤ

pub record Mock : Type 0 where
  pub sessions : Map SessionState
  pub channels : Map ChannelState
  pub counter : ℕ

unfoldable pub next_id : Bytes → Mock → Bytes × Mock
next_id prefix m =
    (prefix ++ codes "-" ++ decimal m.counter, record m { counter = (m.counter + 1) % 2 ^ 64 })

unfoldable pub escape_char : ℕ → Bytes
escape_char c =
    if c == b'\\'
    then b'\\' ∷ b'\\' ∷ []
    else if c == b'"'
    then b'\\' ∷ b'"' ∷ []
    else if c == b'\n'
    then b'\\' ∷ b'n' ∷ []
    else if c == b'\r'
    then b'\\' ∷ b'r' ∷ []
    else if c == b'\t'
    then b'\\' ∷ b't' ∷ []
    else c ∷ []

unfoldable pub escape_json : Bytes → Bytes
unfolding escape_char
escape_json [] = []
escape_json (c ∷ text) = escape_char c ++ escape_json text

unfoldable pub mock_prompt : Bytes
mock_prompt =
    codes "\r\nOpenTabSsh mock shell ready.\r\n"
    ++ codes "This native module is compiled without libssh2.\r\n"
    ++ codes "Enable docs/LIBSSH2_COMPILE_GUIDE.md for real SSH.\r\n"
    ++ codes "root@opentabssh:~$ "

-- The profile is cleared unread.
unfoldable pub create_session : Bytes → Mock → Bytes × Mock
unfolding next_id
create_session profile_json m =
    let (id, m') = next_id (codes "session") m in
    (id, record m' { sessions = insert id (record { connected = false }) m'.sessions })

abbrev pub session_not_found : NativeResult
session_not_found = failure (pos 404) (codes "session not found") []

abbrev pub channel_not_found : NativeResult
channel_not_found = failure (pos 404) (codes "channel not found") []

unfoldable pub connect : Bytes → Mock → NativeResult × Mock
connect session_id m = elim (lookup session_id m.sessions) [
  | none ↦ (session_not_found, m)
  | some session ↦ (
    success (codes "mock connected") session_id,
    record m { sessions = insert session_id (record session { connected = true }) m.sessions },
  )
]

unfoldable pub confirm_host_key : Bytes → Bytes → Mock → NativeResult
confirm_host_key session_id fingerprint m = elim (lookup session_id m.sessions) [
  | none ↦ session_not_found
  | some session ↦ failure (pos 501) (codes "Mock Core has no SSH host key to confirm") fingerprint
]

unfoldable pub open_shell : Bytes → Mock → Bytes × Mock
open_shell session_id m =
    let (id, m') = next_id (codes "channel") m in
    (
      id,
      record m' {
        channels =
            insert id
              (record {
                session_id = session_id;
                pending_output = mock_prompt;
                cols = pos 80;
                rows = pos 24;
              })
              m'.channels;
      },
    )

-- The command without the line ends behind it: `pop_back` while the last byte is one.
unfoldable pub trim_line_end : Bytes → Bytes
trim_line_end [] = []
trim_line_end (c ∷ s) = keep c (trim_line_end s)
  where
    keep : ℕ → Bytes → Bytes
    keep c [] = if c == b'\n' || c == b'\r' then [] else c ∷ []
    keep c (d ∷ rest) = c ∷ d ∷ rest

-- What the shell prints for a command.
unfoldable pub reply_to : Bytes → Bytes
reply_to command =
    if equal command (codes "clear")
    then codes "\r\n"
    else if equal command (codes "pwd")
    then codes "/home/opentabssh\r\n"
    else if equal command (codes "whoami")
    then codes "root\r\n"
    else if equal command (codes "ls") || equal command (codes "ls -la")
    then codes "drwxr-xr-x  2 root root 4096 .\r\n"
      ++ codes "drwxr-xr-x 14 root root 4096 ..\r\n"
      ++ codes "-rw-r--r--  1 root root  128 README.txt\r\n"
    else if starts_with (codes "echo ") command
    then drop 5 command ++ codes "\r\n"
    else codes "mock: command executed: " ++ command ++ codes "\r\n"

-- What is added to the output for an input.
unfoldable pub echoed : Bytes → Bytes
unfolding trim_line_end reply_to
echoed input = input ++ reply_to (trim_line_end input) ++ codes "root@opentabssh:~$ "

unfoldable pub write : Bytes → Bytes → Mock → NativeResult × Mock
unfolding echoed
write channel_id input m = elim (lookup channel_id m.channels) [
  | none ↦ (channel_not_found, m)
  | some channel ↦ (
    success (codes "written") [],
    record m {
      channels =
          insert channel_id
            (record channel { pending_output = channel.pending_output ++ echoed input }) m.channels;
    },
  )
]

unfoldable pub read : Bytes → Mock → NativeResult × Mock
read channel_id m = elim (lookup channel_id m.channels) [
  | none ↦ (channel_not_found, m)
  | some channel ↦ (
    success (codes "read") channel.pending_output,
    record m { channels = insert channel_id (record channel { pending_output = [] }) m.channels },
  )
]

unfoldable pub resize : Bytes → ℤ → ℤ → Mock → NativeResult × Mock
resize channel_id cols rows m = elim (lookup channel_id m.channels) [
  | none ↦ (channel_not_found, m)
  | some channel ↦ (
    success (codes "pty resized") [],
    record m {
      channels = insert channel_id (record channel { cols = cols; rows = rows }) m.channels;
    },
  )
]

unfoldable pub close_channel : Bytes → Mock → NativeResult × Mock
close_channel channel_id m =
    (success (codes "channel closed") [], record m { channels = erase channel_id m.channels })

abbrev pub belongs_to : Bytes → Bytes → ChannelState → Bool
belongs_to session_id key channel = equal channel.session_id session_id

-- The channels of the session go; the session stays, not connected.
unfoldable pub disconnect : Bytes → Mock → NativeResult × Mock
disconnect session_id m =
    let channels = erase_if (belongs_to session_id) m.channels in
    (
      success (codes "session disconnected") [],
      elim (lookup session_id m.sessions) [
        | none ↦ record m { channels = channels }
        | some session ↦ record m {
          channels = channels;
          sessions = insert session_id (record session { connected = false }) m.sessions;
        }
      ],
    )

unfoldable pub sftp_list : Bytes → Bytes → Mock → NativeResult
sftp_list session_id path m = elim (lookup session_id m.sessions) [
  | none ↦ session_not_found
  | some session ↦ success (codes "sftp list") (
      codes "["
      ++ codes "{\"name\":\"home\",\"path\":\"/home\",\"type\":\"dir\",\"size\":0,"
      ++ codes "\"modifiedTime\":\"mock\"},"
      ++ codes "{\"name\":\"etc\",\"path\":\"/etc\",\"type\":\"dir\",\"size\":0,"
      ++ codes "\"modifiedTime\":\"mock\"},"
      ++ codes "{\"name\":\"README.txt\",\"path\":\"/README.txt\",\"type\":\"file\",\"size\":128,"
      ++ codes "\"modifiedTime\":\"mock\"}"
      ++ codes "]")
]

-- The operations that the mock core refuses.
abbrev disabled : Bytes → NativeResult
disabled message = failure (pos 501) message []

unfoldable pub sftp_upload : Bytes → Bytes → Bytes → NativeResult
sftp_upload session_id local_path remote_path = disabled (codes "Mock SFTP upload is disabled")

unfoldable pub sftp_download : Bytes → Bytes → Bytes → NativeResult
sftp_download session_id remote_path local_path = disabled (codes "Mock SFTP download is disabled")

unfoldable pub sftp_mkdir : Bytes → Bytes → NativeResult
sftp_mkdir session_id path = disabled (codes "Mock SFTP mkdir is disabled")

unfoldable pub sftp_remove : Bytes → Bytes → Bool → NativeResult
sftp_remove session_id path directory = disabled (codes "Mock SFTP remove is disabled")

unfoldable pub sftp_rename : Bytes → Bytes → Bytes → NativeResult
sftp_rename session_id source_path destination_path =
    disabled (codes "Mock SFTP rename is disabled")

unfoldable pub sftp_chmod : Bytes → Bytes → ℤ → NativeResult
sftp_chmod session_id path mode = disabled (codes "Mock SFTP chmod is disabled")

unfoldable pub add_local_forward : Bytes → ℤ → Bytes → ℤ → Bytes
add_local_forward session_id local_port remote_host remote_port = []

unfoldable pub add_remote_forward : Bytes → ℤ → Bytes → ℤ → Bytes
add_remote_forward session_id remote_port local_host local_port = []

unfoldable pub add_dynamic_forward : Bytes → ℤ → Bytes
add_dynamic_forward session_id local_port = []

unfoldable pub remove_forward : Bytes → NativeResult
remove_forward forward_id = disabled (codes "Mock port forwarding is disabled")
