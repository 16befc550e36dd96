-- ===== src/Ssh/Forward.antt =====
-- Port forwards of entry/src/main/cpp/native_ssh_libssh2.cpp: the relay of one connection (Relay), its
-- socket and channel (Socket), the SOCKS5 server (Socks), the table of
-- forwards (Table) and what adds to it (Adding).
pub mod Relay
pub mod Socket
pub mod Socks
pub mod Table
pub mod Adding
