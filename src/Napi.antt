-- ===== src/Napi.antt =====
-- entry/src/main/cpp/napi_init.cpp: the functions that JavaScript calls, and the asynchronous work that
-- carries each call to a core. The functions of the core, entry/src/main/cpp/native_ssh_core.h, are an
-- interface (Core), which the mock core fills (MockCore); node-api's own answers are parameters.
pub mod Core
pub mod MockCore
pub mod Dispatch
use tabssh_harmonyos.Prelude.{
  ℕ, zero, suc, Bool, true, false, not, ◌&&◌, ◌||◌, List, [], ◌∷◌, Option, none, some, Bytes, codes,
  is_empty, ◌==◌, if◌then◌else◌,
}
use tabssh_harmonyos.Prelude.Int.{ℤ, pos, eqb_ℤ}
use Core.{NativeCore, Attempt, returned, thrown}

pub data AsyncOperation : Type 0 where
  connect open_shell write read resize close_channel disconnect : AsyncOperation
  sftp_list sftp_upload sftp_download sftp_mkdir sftp_remove sftp_rename sftp_chmod : AsyncOperation
  add_local_forward add_remote_forward add_dynamic_forward remove_forward : AsyncOperation

-- `AsyncContext`, less the handles of node-api.
pub record AsyncContext : Type 0 where
  pub operation : AsyncOperation
  pub first : Bytes
  pub second : Bytes
  pub third : Bytes
  pub first_number : ℤ
  pub second_number : ℤ
  pub result : Bytes
  pub failed : Bool

module _ (core : NativeCore) where
  open core use {State, to_json}

  -- A result as JSON.
  abbrev in_json : Attempt State (core.Answer) → Attempt State Bytes
  in_json (returned answer state) = returned (to_json answer) state
  in_json (thrown state) = thrown state

  -- The `switch` of `ExecuteAsync`.
  unfoldable pub run_operation : AsyncOperation → AsyncContext → State → Attempt State Bytes
  run_operation connect c s = in_json (core.connect c.first s)
  run_operation open_shell c s = core.open_shell c.first s
  run_operation write c s = in_json (core.write c.first c.second s)
  run_operation read c s = in_json (core.read c.first s)
  run_operation resize c s = in_json (core.resize c.first c.first_number c.second_number s)
  run_operation close_channel c s = in_json (core.close_channel c.first s)
  run_operation disconnect c s = in_json (core.disconnect c.first s)
  run_operation sftp_list c s = in_json (core.sftp_list c.first c.second s)
  run_operation sftp_upload c s = in_json (core.sftp_upload c.first c.second c.third s)
  run_operation sftp_download c s = in_json (core.sftp_download c.first c.second c.third s)
  run_operation sftp_mkdir c s = in_json (core.sftp_mkdir c.first c.second s)
  run_operation sftp_remove c s =
      in_json (core.sftp_remove c.first c.second (not (eqb_ℤ c.first_number (pos 0))) s)
  run_operation sftp_rename c s = in_json (core.sftp_rename c.first c.second c.third s)
  run_operation sftp_chmod c s = in_json (core.sftp_chmod c.first c.second c.first_number s)
  run_operation add_local_forward c s =
      core.add_local_forward c.first c.first_number c.second c.second_number s
  run_operation add_remote_forward c s =
      core.add_remote_forward c.first c.first_number c.second c.second_number s
  run_operation add_dynamic_forward c s = core.add_dynamic_forward c.first c.first_number s
  run_operation remove_forward c s = in_json (core.remove_forward c.first s)

  -- The `catch` clauses.
  unfoldable pub caught : AsyncContext → Attempt State Bytes → AsyncContext × State
  caught c (returned result state) = (record c { result = result }, state)
  caught c (thrown state) =
      (record c { failed = true; result = codes "native async operation failed" }, state)

  unfoldable pub execute_async : AsyncContext → State → AsyncContext × State
  unfolding run_operation caught
  execute_async context state = caught context (run_operation context.operation context state)

-- What becomes of a promise.
pub data Promise : Type 0 where
  pending : Promise
  resolved : Bytes → Promise
  rejected : Bytes → Promise

-- The flag is `status == napi_ok`.
unfoldable pub complete_async : Bool → AsyncContext → Promise
complete_async status_ok context =
    if status_ok && not context.failed
    then resolved context.result
    else rejected
        (if is_empty context.result then codes "native async work failed" else context.result)

-- What `QueueAsync` returns: nothing, where no promise can be made; or a promise, with the context that
-- has been queued, if it has.
pub record Queued : Type 0 where
  pub promise : Promise
  pub work : Option AsyncContext

-- The flags are the success of `napi_create_promise`, `napi_create_async_work` and
-- `napi_queue_async_work`.
unfoldable pub queue_async : Bool → Bool → Bool → AsyncContext → Option Queued
queue_async promise_made work_made work_queued context =
    if not promise_made
    then none
    else if not work_made || not work_queued
    then some
        (record { promise = rejected (codes "failed to queue native async work"); work = none })
    else some (record { promise = pending; work = some context })

-- An argument as node-api converts it: to a text by `GetStringArg`, to a number by `GetIntArg`.
pub record Argument : Type 0 where
  pub text : Bytes
  pub number : ℤ

-- `argc > i ? Get...(env, args[i]) : fallback`.
unfoldable pub text_at : ℕ → Bytes → List Argument → Bytes
text_at i fallback [] = fallback
text_at zero fallback (a ∷ args) = a.text
text_at (suc i) fallback (a ∷ args) = text_at i fallback args

unfoldable pub number_at : ℕ → ℤ → List Argument → ℤ
number_at i fallback [] = fallback
number_at zero fallback (a ∷ args) = a.number
number_at (suc i) fallback (a ∷ args) = number_at i fallback args

-- The context that `QueueAsync` fills.
abbrev filled : AsyncOperation → Bytes → Bytes → Bytes → ℤ → ℤ → AsyncContext
filled operation first second third first_number second_number = record {
  operation = operation;
  first = first;
  second = second;
  third = third;
  first_number = first_number;
  second_number = second_number;
  result = [];
  failed = false;
}

-- What each exported function queues for its arguments.
unfoldable pub request : AsyncOperation → List Argument → AsyncContext
unfolding text_at number_at
request connect args = filled connect (text_at 0 [] args) [] [] (pos 0) (pos 0)
request open_shell args = filled open_shell (text_at 0 [] args) [] [] (pos 0) (pos 0)
request write args = filled write (text_at 0 [] args) (text_at 1 [] args) [] (pos 0) (pos 0)
request read args = filled read (text_at 0 [] args) [] [] (pos 0) (pos 0)
request resize args =
    filled resize (text_at 0 [] args) [] [] (number_at 1 (pos 80) args) (number_at 2 (pos 24) args)
request close_channel args = filled close_channel (text_at 0 [] args) [] [] (pos 0) (pos 0)
request disconnect args = filled disconnect (text_at 0 [] args) [] [] (pos 0) (pos 0)
request sftp_list args =
    filled sftp_list (text_at 0 [] args) (text_at 1 (codes "/") args) [] (pos 0) (pos 0)
request sftp_upload args =
    filled sftp_upload (text_at 0 [] args) (text_at 1 [] args) (text_at 2 [] args) (pos 0) (pos 0)
request sftp_download args =
    filled sftp_download (text_at 0 [] args) (text_at 1 [] args) (text_at 2 [] args) (pos 0) (pos 0)
request sftp_mkdir args =
    filled sftp_mkdir (text_at 0 [] args) (text_at 1 [] args) [] (pos 0) (pos 0)
request sftp_remove args =
    filled sftp_remove (text_at 0 [] args) (text_at 1 [] args) [] (number_at 2 (pos 0) args) (pos 0)
request sftp_rename args =
    filled sftp_rename (text_at 0 [] args) (text_at 1 [] args) (text_at 2 [] args) (pos 0) (pos 0)
request sftp_chmod args =
    filled sftp_chmod (text_at 0 [] args) (text_at 1 [] args) [] (number_at 2 (pos 0) args) (pos 0)
request add_local_forward args =
    filled add_local_forward (text_at 0 [] args) (text_at 2 (codes "127.0.0.1") args) []
      (number_at 1 (pos 0) args) (number_at 3 (pos 0) args)
request add_remote_forward args =
    filled add_remote_forward (text_at 0 [] args) (text_at 2 (codes "127.0.0.1") args) []
      (number_at 1 (pos 0) args) (number_at 3 (pos 0) args)
request add_dynamic_forward args =
    filled add_dynamic_forward (text_at 0 [] args) [] [] (number_at 1 (pos 0) args) (pos 0)
request remove_forward args = filled remove_forward (text_at 0 [] args) [] [] (pos 0) (pos 0)
