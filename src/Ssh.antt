-- ===== src/Ssh.antt =====
-- The core over libssh2, entry/src/main/cpp/native_ssh_libssh2.cpp: what it asks of the system and of
-- libssh2 (Calls), its state (State), and its operations.
pub mod Calls
pub mod State
pub mod Network
pub mod Handshake
pub mod Authenticate
pub mod Session
pub mod Effects
pub mod Trust
pub mod Channel
pub mod Terminal
pub mod Disconnect
pub mod Sftp
pub mod Forward
pub mod Waits
pub mod History
