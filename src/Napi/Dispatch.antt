-- ===== src/Napi/Dispatch.antt =====
-- What a JavaScript call of entry/src/main/cpp/napi_init.cpp does to the core, and what its promise
-- becomes.
use tabssh_harmonyos.Prelude.{
  ◌≡◌, refl, ap, ◌∙◌, Bool, true, false, not, ◌&&◌, List, [], ◌∷◌, Option, none, some, Bytes, codes,
  ℕ, if◌then◌else◌,
}
use tabssh_harmonyos.Prelude.Int.{ℤ, pos, eqb_ℤ}
use tabssh_harmonyos.Napi.{
  AsyncOperation, connect, open_shell, write, read, resize, close_channel, disconnect, sftp_list,
  sftp_upload, sftp_download, sftp_mkdir, sftp_remove, sftp_rename, sftp_chmod, add_local_forward,
  add_remote_forward, add_dynamic_forward, remove_forward, AsyncContext, run_operation, caught,
  execute_async, Promise, resolved, rejected, complete_async, Queued, queue_async, Argument,
  text_at, number_at, request,
}
use tabssh_harmonyos.Napi.Core.{NativeCore, Attempt, returned, thrown}

-- The calls as their declarations in native_ssh_core.h name the arguments, from the JavaScript arguments in
-- their order, with the values that stand for missing ones.
module _ (core : NativeCore) (args : List Argument) where
  abbrev text : ℕ → Bytes
  text i = text_at i [] args

  abbrev number : ℕ → ℤ
  number i = number_at i (pos 0) args

  abbrev printed : Attempt core.State core.Answer → Attempt core.State Bytes
  printed (returned answer s) = returned (core.to_json answer) s
  printed (thrown s) = thrown s

  abbrev pub call : AsyncOperation → core.State → Attempt core.State Bytes
  call connect s = printed (core.connect (text 0) s)
  call open_shell s = core.open_shell (text 0) s
  call write s = printed (core.write (text 0) (text 1) s)
  call read s = printed (core.read (text 0) s)
  call resize s =
      printed (core.resize (text 0) (number_at 1 (pos 80) args) (number_at 2 (pos 24) args) s)
  call close_channel s = printed (core.close_channel (text 0) s)
  call disconnect s = printed (core.disconnect (text 0) s)
  call sftp_list s = printed (core.sftp_list (text 0) (text_at 1 (codes "/") args) s)
  call sftp_upload s = printed (core.sftp_upload (text 0) (text 1) (text 2) s)
  call sftp_download s = printed (core.sftp_download (text 0) (text 1) (text 2) s)
  call sftp_mkdir s = printed (core.sftp_mkdir (text 0) (text 1) s)
  call sftp_remove s =
      printed (core.sftp_remove (text 0) (text 1) (not (eqb_ℤ (number 2) (pos 0))) s)
  call sftp_rename s = printed (core.sftp_rename (text 0) (text 1) (text 2) s)
  call sftp_chmod s = printed (core.sftp_chmod (text 0) (text 1) (number 2) s)
  call add_local_forward s =
      core.add_local_forward (text 0) (number 1) (text_at 2 (codes "127.0.0.1") args) (number 3) s
  call add_remote_forward s =
      core.add_remote_forward (text 0) (number 1) (text_at 2 (codes "127.0.0.1") args) (number 3) s
  call add_dynamic_forward s = core.add_dynamic_forward (text 0) (number 1) s
  call remove_forward s = printed (core.remove_forward (text 0) s)

-- How node-api ends a work item: `ExecuteAsync` has run, with the status that `CompleteAsync` is given,
-- which is napi_ok or not; or the item is cancelled before it runs, with another status than napi_ok.
pub data End : Type 0 where
  ran : Bool → End
  cancelled : End

-- What node-api answers to `napi_create_promise`, `napi_create_async_work` and `napi_queue_async_work`,
-- and how the work ends.
pub record Runtime : Type 0 where
  pub promise_made : Bool
  pub work_made : Bool
  pub work_queued : Bool
  pub end : End

-- The end of a queued context: `ExecuteAsync`, unless it is cancelled, and `CompleteAsync`.
abbrev pub settle : (core : NativeCore) → End → AsyncContext → core.State → Promise × core.State
settle core (ran status_ok) context s =
    let (context', s') = execute_async core context s in (complete_async status_ok context', s')
settle core cancelled context s = (complete_async false context, s)

abbrev pub settle_work :
    (core : NativeCore)
    → End
    → Promise
    → Option AsyncContext
    → core.State
    → Option Promise × core.State
settle_work core end promise none s = (some promise, s)
settle_work core end promise (some context) s =
    let (settled, s') = settle core end context s in (some settled, s')

abbrev pub settle_queued :
    (core : NativeCore) → End → Option Queued → core.State → Option Promise × core.State
settle_queued core end none s = (none, s)
settle_queued core end (some queued) s = settle_work core end queued.promise queued.work s

-- The promise that a JavaScript call returns, if any, as it is in the end, and the globals then.
abbrev pub submit :
    (core : NativeCore) → Runtime → AsyncContext → core.State → Option Promise × core.State
submit core runtime context s =
    settle_queued core runtime.end
      (queue_async runtime.promise_made runtime.work_made runtime.work_queued context) s

-- What becomes of a call of the core whose work item ends in this way, in globals `s`.
abbrev pub outcome : {S : Type 0} → End → Attempt S Bytes → S → Promise × S
outcome cancelled a s = (rejected (codes "native async work failed"), s)
outcome (ran ok) (thrown s') s = (rejected (codes "native async operation failed"), s')
outcome (ran true) (returned json s') s = (resolved json, s')
outcome (ran false) (returned [] s') s = (rejected (codes "native async work failed"), s')
outcome (ran false) (returned (c ∷ json) s') s = (rejected (c ∷ json), s')

-- The same with the answers of node-api before that.
abbrev pub promised : {S : Type 0} → Runtime → Attempt S Bytes → S → Option Promise × S
promised runtime a s =
    if not runtime.promise_made
    then (none, s)
    else if runtime.work_made && runtime.work_queued
    then (some (outcome runtime.end a s).0, (outcome runtime.end a s).1)
    else (some (rejected (codes "failed to queue native async work")), s)

request-operation :
    (operation : AsyncOperation) (args : List Argument)
    → ((request operation args).operation ≡ operation) × ((request operation args).failed ≡ false)
unfolding request
request-operation connect args = (refl, refl)
request-operation open_shell args = (refl, refl)
request-operation write args = (refl, refl)
request-operation read args = (refl, refl)
request-operation resize args = (refl, refl)
request-operation close_channel args = (refl, refl)
request-operation disconnect args = (refl, refl)
request-operation sftp_list args = (refl, refl)
request-operation sftp_upload args = (refl, refl)
request-operation sftp_download args = (refl, refl)
request-operation sftp_mkdir args = (refl, refl)
request-operation sftp_remove args = (refl, refl)
request-operation sftp_rename args = (refl, refl)
request-operation sftp_chmod args = (refl, refl)
request-operation add_local_forward args = (refl, refl)
request-operation add_remote_forward args = (refl, refl)
request-operation add_dynamic_forward args = (refl, refl)
request-operation remove_forward args = (refl, refl)

run_operation-request :
    (core : NativeCore) (operation : AsyncOperation) (args : List Argument) (s : core.State)
    → run_operation core operation (request operation args) s ≡ call core args operation s
unfolding run_operation request
run_operation-request core connect args s = refl
run_operation-request core open_shell args s = refl
run_operation-request core write args s = refl
run_operation-request core read args s = refl
run_operation-request core resize args s = refl
run_operation-request core close_channel args s = refl
run_operation-request core disconnect args s = refl
run_operation-request core sftp_list args s = refl
run_operation-request core sftp_upload args s = refl
run_operation-request core sftp_download args s = refl
run_operation-request core sftp_mkdir args s = refl
run_operation-request core sftp_remove args s = refl
run_operation-request core sftp_rename args s = refl
run_operation-request core sftp_chmod args s = refl
run_operation-request core add_local_forward args s = refl
run_operation-request core add_remote_forward args s = refl
run_operation-request core add_dynamic_forward args s = refl
run_operation-request core remove_forward args s = refl

complete-caught :
    (core : NativeCore) (c : AsyncContext) (a : Attempt core.State Bytes) (ok : Bool)
    (s : core.State)
    → c.failed ≡ false
    → (complete_async ok (caught core c a).0, (caught core c a).1) ≡ outcome (ran ok) a s
unfolding complete_async caught codes
complete-caught core c (thrown s') true s h = refl
complete-caught core c (thrown s') false s h = refl
complete-caught core c (returned json s') true s h = rw h refl
complete-caught core c (returned [] s') false s h = refl
complete-caught core c (returned (b ∷ json) s') false s h = refl

request_empty :
    (operation : AsyncOperation) (args : List Argument)
    → complete_async false (request operation args) ≡ rejected (codes "native async work failed")
unfolding complete_async request
request_empty connect args = refl
request_empty open_shell args = refl
request_empty write args = refl
request_empty read args = refl
request_empty resize args = refl
request_empty close_channel args = refl
request_empty disconnect args = refl
request_empty sftp_list args = refl
request_empty sftp_upload args = refl
request_empty sftp_download args = refl
request_empty sftp_mkdir args = refl
request_empty sftp_remove args = refl
request_empty sftp_rename args = refl
request_empty sftp_chmod args = refl
request_empty add_local_forward args = refl
request_empty add_remote_forward args = refl
request_empty add_dynamic_forward args = refl
request_empty remove_forward args = refl

settle-outcome :
    (core : NativeCore) (end : End) (operation : AsyncOperation) (args : List Argument)
    (s : core.State)
    → settle core end (request operation args) s ≡ outcome end (call core args operation s) s
unfolding execute_async
settle-outcome core cancelled operation args s = ap (λ p. (p, s)) (request_empty operation args)
settle-outcome core (ran ok) operation args s =
    let c = request operation args in
    let filled = request-operation operation args in
    complete-caught core c (run_operation core c.operation c s) ok s filled.1
    ∙ ap (λ a. outcome (ran ok) a s)
        (ap (λ o. run_operation core o c s) filled.0 ∙ run_operation-request core operation args s)

-- For every operation, whatever the core, the JavaScript arguments and node-api: if no promise can be
-- made the call returns none; if the work cannot be made or queued, or is cancelled, the promise is
-- rejected; in these cases the globals are as before. Otherwise the globals are those that the core's
-- function leaves on these arguments, the missing ones replaced, and the promise is resolved with what
-- that function returns exactly when it does not throw and the status is napi_ok, and is rejected
-- else, each time with the message of the case.
pub submit-request :
    (core : NativeCore) (runtime : Runtime) (operation : AsyncOperation) (args : List Argument)
    (s : core.State)
    → submit core runtime (request operation args) s
      ≡ promised runtime (call core args operation s) s
unfolding queue_async
submit-request core runtime operation args s =
    answered runtime.promise_made runtime.work_made runtime.work_queued
  where
    c : AsyncContext
    c = request operation args

    answered :
        (promise_made work_made work_queued : Bool)
        → settle_queued core runtime.end (queue_async promise_made work_made work_queued c) s
          ≡ promised
              (record {
                promise_made = promise_made;
                work_made = work_made;
                work_queued = work_queued;
                end = runtime.end;
              })
              (call core args operation s)
              s
    answered false made queued = refl
    answered true false queued = refl
    answered true true false = refl
    answered true true true =
        ap (λ o. (some o.0, o.1)) (settle-outcome core runtime.end operation args s)
