-- ===== src/Tests/TransferTests.antt =====
-- Writing to a channel and moving files in entry/src/main/cpp/native_ssh_libssh2.cpp, where each write
-- takes one byte.
use tabssh_harmonyos.Prelude.{
  ◌≡◌, refl, min, arith, Bool, true, false, [], ◌∷◌, ◌++◌, none, some, Bytes, codes, decimal, equal,
  length,
}
use tabssh_harmonyos.Prelude.Int.{pos}
use tabssh_harmonyos.Prelude.Map.{lookup, insert}
use tabssh_harmonyos.Profile.{success}
use tabssh_harmonyos.Ssh.Calls.{
  Call, Env, Reply, Log, other, ◌>>=◌, ask, on_pointer, pure, test_again, loop,
}
use tabssh_harmonyos.Ssh.Effects.Settled.{Settled}
use tabssh_harmonyos.Ssh.Network.{deadline_after, retry}
use tabssh_harmonyos.Ssh.Sftp.{
  acquire, ensure_sftp, close_sftp_handle, open_sftp_file, with_sftp, on_sftp,
}
use tabssh_harmonyos.Ssh.Sftp.Download.{sftp_download}
use tabssh_harmonyos.Ssh.Sftp.Download.Delivered.{Downloads, download-delivered}
use tabssh_harmonyos.Ssh.Sftp.Download.Saved.{SftpReadFills}
use tabssh_harmonyos.Ssh.Sftp.Traffic.{traffic}
use tabssh_harmonyos.Ssh.Sftp.Upload.{sftp_upload}
use tabssh_harmonyos.Ssh.Sftp.Upload.Chunk.{SftpTakesOffered}
use tabssh_harmonyos.Ssh.Sftp.Upload.Delivered.{Uploads, upload-delivered}
use tabssh_harmonyos.Ssh.History.{initial}
use tabssh_harmonyos.Ssh.State.{Core, find_authenticated_session, ChannelState}
use tabssh_harmonyos.Ssh.Terminal.{write}
use tabssh_harmonyos.Ssh.Terminal.Written.{TakesOffered, delivered, write-delivered}
use tabssh_harmonyos.Tests.StreamTests.{reply, session, open_core, trace}

abbrev id : Bytes
id = codes "session-1"

abbrev text : Bytes
text = b'x' ∷ b'y' ∷ []

-- Whether the file has been read.
abbrev at_end : Log → Bool
at_end [] = false
at_end (Call.file_read s n ∷ log) = true
at_end (Call.sftp_read h n ∷ log) = true
at_end (_ ∷ log) = at_end log

abbrev contents : Bool → Bytes
contents true = []
contents false = text

abbrev moved : Log → Call → Reply
moved log (Call.channel_write c t) = record reply { value = pos (min 1 (length t)) }
moved log (Call.sftp_write h t) = record reply { value = pos (min 1 (length t)) }
moved log (Call.file_read s n) = record reply { bytes = contents (at_end log) }
moved log (Call.sftp_read h n) = record reply {
  value = pos (length (contents (at_end log)));
  bytes = contents (at_end log);
}
moved log (Call.file_good s) = record reply { value = pos 1 }
moved log _ = reply

abbrev moving : Env
moving = record {
  answer = moved;
  eagain = 36;
  key_type = λ n. other;
  attributes = λ n. record { is_directory = none; file_size = none; modified = none };
  globals = λ log. initial (pos 0);
  stopping = λ log. false;
  fuel = 4;
}

moving-TakesOffered : TakesOffered moving
moving-TakesOffered = λ log channel t. omega arith

moving-SftpTakesOffered : SftpTakesOffered moving
moving-SftpTakesOffered = λ log handle t. omega arith

moving-SftpReadFills : SftpReadFills moving
moving-SftpReadFills = λ log handle size. omega arith

write_returns :
    write (codes "channel-2") text open_core moving []
    ≡ some (
      success (codes "written") (decimal 2),
      trace (write (codes "channel-2") text open_core moving []),
    )
unfolding write lookup equal codes ◌>>=◌ ask test_again loop pure deadline_after
write_returns = refl

write-delivered_example :
    (c : ChannelState) × (lookup (codes "channel-2") open_core.channels ≡ some c)
    × (delivered c.channel moving (trace (write (codes "channel-2") text open_core moving []))
        ≡ delivered c.channel moving [] ++ text)
    × (decimal 2 ≡ decimal (length text))
write-delivered_example =
    write-delivered moving (codes "channel-2") text open_core [] moving-TakesOffered write_returns
      refl

-- The globals once the session has an SFTP session.
abbrev with_files : Core
with_files = record open_core { sessions = (id, record session { sftp = some 3 }) ∷ [] }

abbrev local : Bytes
local = codes "a"

abbrev remote : Bytes
remote = codes "b"

upload_returns :
    sftp_upload id local remote open_core moving []
    ≡ some (
      (success (codes "SFTP upload complete") (decimal 2), with_files),
      trace (sftp_upload id local remote open_core moving []),
    )
unfolding sftp_upload lookup insert equal codes ◌>>=◌ ask on_pointer test_again loop pure
    deadline_after retry find_authenticated_session with_sftp ensure_sftp acquire open_sftp_file
    close_sftp_handle
upload_returns = refl

upload-delivered_example :
    Uploads local remote
      (traffic moving [])
      (success (codes "SFTP upload complete") (decimal 2))
      (traffic moving (trace (sftp_upload id local remote open_core moving [])))
      moving
      (trace (sftp_upload id local remote open_core moving []))
upload-delivered_example =
    upload-delivered moving id local remote open_core [] moving-SftpTakesOffered refl upload_returns

download_returns :
    sftp_download id remote local open_core moving []
    ≡ some (
      (success (codes "SFTP download complete") (decimal 2), with_files),
      trace (sftp_download id remote local open_core moving []),
    )
unfolding sftp_download on_sftp lookup insert equal codes ◌>>=◌ ask on_pointer test_again loop pure
    deadline_after retry find_authenticated_session with_sftp ensure_sftp acquire open_sftp_file
    close_sftp_handle
download_returns = refl

download-delivered_example :
    Downloads remote local
      (traffic moving [])
      (success (codes "SFTP download complete") (decimal 2))
      (traffic moving (trace (sftp_download id remote local open_core moving [])))
      moving
      (trace (sftp_download id remote local open_core moving []))
download-delivered_example =
    download-delivered moving id remote local open_core [] moving-SftpReadFills refl
      download_returns
