-- ===== src/Tests/DisconnectTests.antt =====
-- A whole `Disconnect` of entry/src/main/cpp/native_ssh_libssh2.cpp, of a session with a channel and a
-- forward.
use tabssh_harmonyos.Prelude.{[], codes}
use tabssh_harmonyos.Profile.{success}
use tabssh_harmonyos.Ssh.Disconnect.{Left, begin_disconnect}
use tabssh_harmonyos.Ssh.State.{Core}
use tabssh_harmonyos.Tests.ForwardTests.{other_table}
use tabssh_harmonyos.Tests.StreamTests.{open_core}

abbrev marked : Core
marked = (begin_disconnect (codes "session-1") open_core).1

abbrev left : Left
left = record {
  result = success (codes "session disconnected and resources released") [];
  marked = marked;
  core = record {
    sessions = [];
    channels = [];
    counter = 3;
    runtime_status = marked.runtime_status;
  };
  forwards = other_table;
}
