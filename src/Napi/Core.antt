-- ===== src/Napi/Core.antt =====
-- The functions of entry/src/main/cpp/native_ssh_core.h that asynchronous work calls, as an interface:
-- each takes the core's globals and returns an answer, or throws, with the globals after it.
use tabssh_harmonyos.Prelude.{Bool, Bytes}
use tabssh_harmonyos.Prelude.Int.{ℤ}

pub data Attempt (S A : Type 0) : Type 0 where
  returned : A → S → Attempt S A
  thrown : S → Attempt S A

pub record NativeCore : Type 1 where
  pub State : Type 0
  pub Answer : Type 0
  pub to_json : Answer → Bytes
  pub connect : Bytes → State → Attempt State Answer
  pub open_shell : Bytes → State → Attempt State Bytes
  pub write : Bytes → Bytes → State → Attempt State Answer
  pub read : Bytes → State → Attempt State Answer
  pub resize : Bytes → ℤ → ℤ → State → Attempt State Answer
  pub close_channel : Bytes → State → Attempt State Answer
  pub disconnect : Bytes → State → Attempt State Answer
  pub sftp_list : Bytes → Bytes → State → Attempt State Answer
  pub sftp_upload : Bytes → Bytes → Bytes → State → Attempt State Answer
  pub sftp_download : Bytes → Bytes → Bytes → State → Attempt State Answer
  pub sftp_mkdir : Bytes → Bytes → State → Attempt State Answer
  pub sftp_remove : Bytes → Bytes → Bool → State → Attempt State Answer
  pub sftp_rename : Bytes → Bytes → Bytes → State → Attempt State Answer
  pub sftp_chmod : Bytes → Bytes → ℤ → State → Attempt State Answer
  pub add_local_forward : Bytes → ℤ → Bytes → ℤ → State → Attempt State Bytes
  pub add_remote_forward : Bytes → ℤ → Bytes → ℤ → State → Attempt State Bytes
  pub add_dynamic_forward : Bytes → ℤ → State → Attempt State Bytes
  pub remove_forward : Bytes → State → Attempt State Answer
