-- ===== src/Tests/MockTests.antt =====
-- Runs of entry/src/main/cpp/native_ssh_mock.cpp.
use tabssh_harmonyos.Prelude.{
  ◌≡◌, ◌≢◌, refl, true, false, List, [], ◌∷◌, ◌++◌, some, Bytes, codes, equal,
}
use tabssh_harmonyos.Prelude.Map.{lookup}
use tabssh_harmonyos.Mock.{
  Mock, SessionState, ChannelState, mock_prompt, create_session, open_shell, read, disconnect,
  echoed,
}
use tabssh_harmonyos.Mock.Sessions.{disconnect_lem}
use tabssh_harmonyos.Mock.Shell.{write_all, all_echoed, read-write_all-open_shell}

abbrev empty : Mock
empty = record { sessions = []; channels = []; counter = 1 }

whoami : echoed (codes "whoami\n") ≡ codes "whoami\nroot\r\nroot@opentabssh:~$ "
unfolding echoed codes equal
whoami = refl

abbrev commands : List Bytes
commands = codes "whoami\n" ∷ codes "echo hi\r\n" ∷ []

read-write_all-open_shell_example :
    let id = (open_shell (codes "session-1") empty).0 in
    let written = write_all id commands (open_shell (codes "session-1") empty).1 in
    ((read id written).0.ok ≡ true)
    × ((read id written).0.payload ≡ mock_prompt ++ all_echoed commands)
    × ((read id (read id written).1).0.payload ≡ [])
read-write_all-open_shell_example = read-write_all-open_shell (codes "session-1") commands empty

-- A session with a channel.
abbrev busy : Mock
busy = let (id, m) = create_session [] empty in (open_shell id m).1

disconnect_lem_example :
    ((key : Bytes) (c : ChannelState)
      → lookup key (disconnect (codes "session-1") busy).1.channels ≡ some c
      → c.session_id ≢ codes "session-1")
    × ((key : Bytes) (c : ChannelState)
        → lookup key busy.channels ≡ some c
        → c.session_id ≢ codes "session-1"
        → lookup key (disconnect (codes "session-1") busy).1.channels ≡ some c)
    × ((s : SessionState)
        → lookup (codes "session-1") busy.sessions ≡ some s
        → lookup (codes "session-1") (disconnect (codes "session-1") busy).1.sessions
          ≡ some (record { connected = false }))
disconnect_lem_example = disconnect_lem (codes "session-1") busy
