-- ===== src/Lib.antt =====
-- A model of the native SSH core of OpenTabSsh, entry/src/main/cpp.
--
-- JavaScript calls functions that napi_init.cpp exports; these queue asynchronous work, which calls
-- one of two cores behind the interface native_ssh_core.h: the core over libssh2,
-- native_ssh_libssh2.cpp, or the mock core, native_ssh_mock.cpp. A core keeps maps of sessions and of
-- channels, a counter for their names, and answers with a NativeResult, which is printed as JSON.
--
-- The files and the code that they model:
--   Json       EscapeJson (Escape), AppendUtf8 (Utf8), ParseJsonString (Parse), FindJsonValue, JsonString
--              and JsonInt (Find), NativeResult and ToJson (Result), of native_ssh_libssh2.cpp;
--              RoundTrip and Utf8/Decode have the proofs.
--   Fingerprint  Base64 and ConstantTimeEqual; proofs in Base64 and Compare.
--   Profile    ProfileConfig, ParseProfile, InvalidProfileResult; proofs in Validity.
--   Ssh        the core over libssh2: Calls (what it asks of libssh2, the sockets and the clock), State
--              (SessionState, ChannelState, the globals, NextId, FindAuthenticatedSession), Network
--              (WaitSocket, ConnectTcp), Handshake (CaptureHostKey, CloseNetwork, EnsureHandshake),
--              Authenticate, Session (CreateSession, Connect, ConfirmHostKey), Channel (OpenShell,
--              Resize, CloseChannel), Terminal (Write, Read), Disconnect, Sftp (EnsureSftp, OpenSftpFile,
--              CloseSftpHandle; Sftp/Requests, Listing, Upload and Download have the operations),
--              Forward (Relay has RelayForwardConnection and CloseForwardChannel, Socket the exact reads
--              and writes and OpenDirectChannel, Socks HandleSocksClient, Table StopForwardsForSession
--              and RemoveForward, Adding AddLocalForward and AddDynamicForward), and History, the
--              operations on sessions, channels and files in any order. Effects and Trust carry the
--              proofs about credentials, Effects/Held and Runs those about single runs,
--              Effects/Settled and Tasks those about calls repeated while libssh2 answers EAGAIN, Waits those about deadlines;
--              Terminal/Bounds, Terminal/Written and Disconnect/Closing and Released are about Read,
--              Write and Disconnect, and Sftp/Traffic, Opening and the modules below Upload and
--              Download about the bytes that the two transfers move; Forward/Relay has modules on the bytes
--              relayed, Forward/Socks on what a client asks for and is connected to, Forward/Table on
--              how forwards are stopped.
--   Mock       the mock core; proofs in Mock/Shell and Mock/Sessions.
--   Napi       ExecuteAsync, CompleteAsync, QueueAsync and the arguments of the exported functions, over
--              the interface Napi/Core; Napi/MockCore fills it, Napi/Dispatch has the proofs.
--   Prelude    names, lists, texts, maps, integers and bits that the rest shares.
--   Tests      runs at fixed inputs, and each theorem at an input where its hypotheses hold.
--
-- A text is a list of bytes, a map an association list with lookup by key, an int32_t an integer
-- with its range stated where it matters, a uint64_t counter is taken modulo 2^64. A function under
-- a mutex is one step on the globals; Disconnect, which takes the mutex twice, is two, which are
-- also put together with what comes between. A thread that relays a connection only reads the
-- globals, which other threads change in between, so they are part of Env there. Functions by name
-- keep the source's names; a helper models a part of a
-- function, which its comment or name gives.
--
-- libssh2, getaddrinfo, poll, the clock and the file streams are not in the repository. Their
-- answers are a parameter, a function of the call and of all calls before it (Ssh/Calls, Env), and
-- every theorem about Ssh holds for all of them, with documented properties named where they are
-- used (FillsBuffer of Ssh/Terminal/Bounds; TakesOffered of Ssh/Terminal/Written; SftpTakesOffered
-- of Ssh/Sftp/Upload/Chunk; SftpReadFills of Ssh/Sftp/Download/Saved; SocketTakesOffered of
-- Ssh/Forward/Relay/Balance; SocketReadFills of Ssh/Forward/Socks/Reading; Passes and Uninterrupted
-- of Ssh/Waits). The loops that wait for the network are bounded by a number of rounds in Env: a
-- run that uses them up gives nothing, and most theorems about such runs speak of those that
-- return. Ssh/Waits shows how many rounds a deadline asks for. Loops over texts run on fuel of the
-- text's length, where each round takes a byte at least.
--
-- Not modelled: the workers of port forwards and AddRemoteForward, the registration of the module,
-- version texts, start-up and shut-down of libssh2, and the ArkTS application. A file stream that
-- goes out of scope is closed without a call. Writing zeros over cleared secrets has no
-- counterpart, since memory that is not reachable is not in the model.
pub mod Prelude
pub mod Json
pub mod Fingerprint
pub mod Profile
pub mod Ssh
pub mod Mock
pub mod Napi
mod Tests
