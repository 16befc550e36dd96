-- ===== src/Tests/NapiTests.antt =====
-- A JavaScript call of entry/src/main/cpp/napi_init.cpp with two arguments missing, on the mock core.
use tabssh_harmonyos.Prelude.{◌≡◌, true, [], ◌∷◌, codes}
use tabssh_harmonyos.Prelude.Int.{pos}
use tabssh_harmonyos.Mock.{Mock, open_shell}
use tabssh_harmonyos.Napi.{Argument, resize, request}
use tabssh_harmonyos.Napi.Dispatch.{Runtime, ran, call, promised, submit, submit-request}
use tabssh_harmonyos.Napi.MockCore.{mock_core}

abbrev shell : Mock
shell = (open_shell (codes "session-1") (record { sessions = []; channels = []; counter = 1 })).1

abbrev channel : Argument
channel = record { text = codes "channel-1"; number = pos 0 }

abbrev runtime : Runtime
runtime = record { promise_made = true; work_made = true; work_queued = true; end = ran true }

submit-request_example :
    submit mock_core runtime (request resize (channel ∷ [])) shell
    ≡ promised runtime (call mock_core (channel ∷ []) resize shell) shell
submit-request_example = submit-request mock_core runtime resize (channel ∷ []) shell
