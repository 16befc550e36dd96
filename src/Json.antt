-- ===== src/Json.antt =====
-- JSON text as entry/src/main/cpp/native_ssh_libssh2.cpp writes and reads it: `EscapeJson` (Escape),
-- `AppendUtf8` (Utf8), `ParseJsonString` (Parse), `FindJsonValue`, `JsonString` and `JsonInt` (Find),
-- and `ToJson` (Result).
pub mod Escape
pub mod Utf8
pub mod Parse
pub mod RoundTrip
pub mod Find
pub mod Result
