-- ===== src/Tests.antt =====
-- Runs of the definitions at fixed inputs, and the theorems at inputs where their hypotheses hold.
mod JsonTests
mod ProfileTests
mod MockTests
mod SshTests
mod NapiTests
mod StreamTests
mod WaitTests
mod TransferTests
mod ForwardTests
mod SocksTests
mod DisconnectTests
