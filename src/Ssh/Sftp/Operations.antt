-- ===== src/Ssh/Sftp/Operations.antt =====
-- The SFTP operations of entry/src/main/cpp/native_ssh_libssh2.cpp, as one family.
use tabssh_harmonyos.Prelude.{Bool, Bytes}
use tabssh_harmonyos.Prelude.Int.{ℤ}
use tabssh_harmonyos.Json.Result.{NativeResult}
use tabssh_harmonyos.Ssh.Calls.{Io}
use tabssh_harmonyos.Ssh.Sftp.Download.{sftp_download}
use tabssh_harmonyos.Ssh.Sftp.Listing.{sftp_list}
use tabssh_harmonyos.Ssh.Sftp.Requests.{sftp_mkdir, sftp_remove, sftp_rename, sftp_chmod}
use tabssh_harmonyos.Ssh.Sftp.Upload.{sftp_upload}
use tabssh_harmonyos.Ssh.State.{Core}

-- One of the SFTP operations.
pub data Operation : Type 0 where
  lists : Bytes → Operation
  uploads : Bytes → Bytes → Operation
  downloads : Bytes → Bytes → Operation
  makes_directory : Bytes → Operation
  removes : Bytes → Bool → Operation
  renames : Bytes → Bytes → Operation
  changes_mode : Bytes → ℤ → Operation

abbrev pub operate : Bytes → Operation → Core → Io (NativeResult × Core)
operate id (lists path) = sftp_list id path
operate id (uploads local remote) = sftp_upload id local remote
operate id (downloads remote local) = sftp_download id remote local
operate id (makes_directory path) = sftp_mkdir id path
operate id (removes path directory) = sftp_remove id path directory
operate id (renames source destination) = sftp_rename id source destination
operate id (changes_mode path mode) = sftp_chmod id path mode
