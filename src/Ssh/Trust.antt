-- ===== src/Ssh/Trust.antt =====
-- No credentials without a confirmed host key, in entry/src/main/cpp/native_ssh_libssh2.cpp.
pub mod Silence
pub mod KeyCheck
pub mod Credentials
pub mod Globals
pub mod Operations
pub mod Transfers
pub mod Requests
pub mod SftpSessions
pub mod Streams
