-- ===== src/Ssh/History.antt =====
-- Histories of the operations of entry/src/main/cpp/native_ssh_libssh2.cpp on sessions, channels and files,
-- in any order and with any arguments; each step is one passage under `g_mutex`.
pub mod Safety
use tabssh_harmonyos.Prelude.{
  ◌≡◌, ◌≢◌, refl, sym, ◌∙◌, ◌⊎◌, inl, inr, true, [], Option, none, some, Bytes, arith,
}
use tabssh_harmonyos.Prelude.Int.{ℤ, pos}
use tabssh_harmonyos.Prelude.Map.{lookup}
use tabssh_harmonyos.Json.Result.{NativeResult}
use tabssh_harmonyos.Ssh.Calls.{Env, Log}
use tabssh_harmonyos.Ssh.Channel.{open_shell, resize, close_channel}
use tabssh_harmonyos.Ssh.Disconnect.{begin_disconnect, finish_disconnect}
use tabssh_harmonyos.Ssh.Session.{create_session, connect, confirm_host_key}
use tabssh_harmonyos.Ssh.Sftp.Operations.{Operation, operate}
use tabssh_harmonyos.Ssh.State.{SessionState, Core, find_authenticated_session}
use tabssh_harmonyos.Ssh.Terminal.{write, read}

-- The globals at start-up, with the status of `libssh2_init`.
abbrev pub initial : ℤ → Core
initial status = record { sessions = []; channels = []; counter = 1; runtime_status = status }

-- A step from globals and a log of calls to such.
pub data Step (env : Env) (core : Core) (log : Log) (core' : Core) (log' : Log) : Type 0 where
  creates :
      (json : Bytes)
      → core' ≡ (create_session json core).1
      → log' ≡ log
      → Step env core log core' log'
  confirms :
      (id fingerprint : Bytes)
      → core' ≡ (confirm_host_key id fingerprint core).1
      → log' ≡ log
      → Step env core log core' log'
  connects :
      (id : Bytes) {result : NativeResult}
      → connect id core env log ≡ some ((result, core'), log')
      → Step env core log core' log'
  opens_shell :
      (id : Bytes) {channel_id : Bytes}
      → open_shell id core env log ≡ some ((channel_id, core'), log')
      → Step env core log core' log'
  writes :
      (id text : Bytes) {result : NativeResult}
      → write id text core env log ≡ some (result, log')
      → core' ≡ core
      → Step env core log core' log'
  reads :
      (id : Bytes) {result : NativeResult}
      → read id core env log ≡ some (result, log')
      → core' ≡ core
      → Step env core log core' log'
  resizes :
      (id : Bytes) (cols rows : ℤ) {result : NativeResult}
      → resize id cols rows core env log ≡ some ((result, core'), log')
      → Step env core log core' log'
  closes_channel :
      (id : Bytes) {result : NativeResult}
      → close_channel id core env log ≡ some ((result, core'), log')
      → Step env core log core' log'
  begins_disconnect :
      (id : Bytes)
      → core' ≡ (begin_disconnect id core).1
      → log' ≡ log
      → Step env core log core' log'
  finishes_disconnect :
      (id : Bytes) {result : NativeResult}
      → finish_disconnect id core env log ≡ some ((result, core'), log')
      → Step env core log core' log'
  transfers :
      (id : Bytes) (operation : Operation) {result : NativeResult}
      → operate id operation core env log ≡ some ((result, core'), log')
      → Step env core log core' log'

-- What can be reached from start-up.
pub data Reach (env : Env) (status : ℤ) : Core → Log → Type 0 where
  start : Reach env status (initial status) []
  next :
      {core core' : Core} {log log' : Log}
      → Reach env status core log
      → Step env core log core' log'
      → Reach env status core' log'
