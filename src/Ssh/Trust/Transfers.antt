-- ===== src/Ssh/Trust/Transfers.antt =====
-- The SFTP operations of entry/src/main/cpp/native_ssh_libssh2.cpp send no credentials, and keep the
-- sessions trusted.
use tabssh_harmonyos.Prelude.{
  ℕ, ◌≡◌, refl, Bool, true, false, not, ◌⊎◌, inl, inr, Bytes, is_empty, length, ltb,
}
use tabssh_harmonyos.Prelude.Int.{pos, eqb_ℤ}
use tabssh_harmonyos.Json.Result.{NativeResult}
use tabssh_harmonyos.Ssh.Calls.{Call, Reply, Io}
use tabssh_harmonyos.Ssh.Effects.{
  is_credential, Quiet-ask, Quiet-test_again, Silent, Silent-pure, Silent-bind, Silent-if,
  Silent-loop, Silent-on_pointer, silent_rules,
}
use tabssh_harmonyos.Ssh.Sftp.{
  acquire_null, acquire_round, acquire, close_sftp_handle, open_sftp_file,
}
use tabssh_harmonyos.Ssh.Sftp.Upload.{
  Transfer, Sending, give_up_handle, send_reply, send_round, send_chunk, upload_round,
  finish_upload, upload_file, upload_body,
}
use tabssh_harmonyos.Ssh.Sftp.Download.{
  discard, save, receive_reply, receive_round, finish_download, download_file, download_to,
  download_body,
}
use tabssh_harmonyos.Ssh.State.{SessionState}
use tabssh_harmonyos.Ssh.Trust.Silence.{
  deadline_after-Silent, wait_socket-Silent, retry-Silent, session_error-Silent,
}

acquire_null-Silent : (s : SessionState) (w : Io Bool) → Silent w → Silent (acquire_null s w)
unfolding acquire_null is_credential
acquire_null-Silent s w h = search silent_rules depth 10

pub acquire-Silent :
    (s : SessionState) (c : Call) (w : Io Bool)
    → is_credential c ≡ false
    → Silent w
    → Silent (acquire s c w)
unfolding acquire acquire_round
acquire-Silent s c w e h = Silent-loop _ tt (λ _.
    Silent-bind _ _ (Quiet-ask c e)
      (λ r. Silent-on_pointer r.pointer _ _ (acquire_null-Silent s w h) (λ p. Silent-pure _)))

pub close_sftp_handle-Silent : (s : SessionState) (h : ℕ) → Silent (close_sftp_handle s h)
unfolding close_sftp_handle is_credential
close_sftp_handle-Silent s h =
    search (silent_rules, deadline_after-Silent, retry-Silent, wait_socket-Silent) depth 9

pub open_sftp_file-Silent :
    (s : SessionState) (path : Bytes) (writing : Bool) (t : ℕ)
    → Silent (open_sftp_file s path writing t)
unfolding open_sftp_file is_credential
open_sftp_file-Silent s path writing t =
    Silent-bind _ _ (acquire-Silent s _ _ refl (wait_socket-Silent _ _ t)) (λ a. Silent-pure _)

give_up_handle-Silent :
    (s : SessionState) (h : ℕ) (m : Io NativeResult) → Silent m → Silent (give_up_handle s h m)
unfolding give_up_handle
give_up_handle-Silent s h m k = Silent-bind _ _ (close_sftp_handle-Silent s h) (λ _. k)

send_reply-Silent :
    (s : SessionState) (h : ℕ) (sending : Sending) (r : Reply) (b : Bool)
    → Silent (send_reply s h sending r b)
unfolding send_reply
send_reply-Silent s h sending r b =
    search
      (
        silent_rules, give_up_handle-Silent, wait_socket-Silent, deadline_after-Silent,
        session_error-Silent,
      )
      depth 12

send_round-Silent :
    (s : SessionState) (h : ℕ) (chunk : Bytes) (sending : Sending)
    → Silent (send_round s h chunk sending)
unfolding send_round is_credential
send_round-Silent s h chunk sending =
    Silent-if (not (ltb sending.offset (length chunk))) _ _ (Silent-pure _) (
      Silent-bind _ _ (Quiet-ask _ refl)
        λ r. Silent-bind _ _ (Quiet-test_again r) (λ b. send_reply-Silent s h sending r b))

upload_round-Silent :
    (s : SessionState) (input h : ℕ) (t : Transfer) → Silent (upload_round s input h t)
unfolding upload_round send_chunk is_credential
upload_round-Silent s input h t = Silent-bind _ _ (Quiet-ask _ refl) λ good.
    Silent-if (eqb_ℤ good.value (pos 0)) _ _ (Silent-pure _) (
      Silent-bind _ _ (Quiet-ask _ refl) λ chunk.
        Silent-if (is_empty chunk.bytes) _ _ (Silent-pure _) (
          Silent-bind _ _ (Silent-loop _ _ (send_round-Silent s h chunk.bytes))
            (λ o. Silent-pure _)))

finish_upload-Silent :
    (s : SessionState) (input h : ℕ) (o : NativeResult ⊎ Transfer)
    → Silent (finish_upload s input h o)
unfolding finish_upload is_credential
finish_upload-Silent s input h (inl r) = Silent-pure r
finish_upload-Silent s input h (inr t) =
    search (silent_rules, give_up_handle-Silent, close_sftp_handle-Silent, session_error-Silent)
      depth 12

pub upload_body-Silent :
    (input : ℕ) (path : Bytes) (s : SessionState) (t : ℕ) → Silent (upload_body input path s t)
unfolding upload_body upload_file
upload_body-Silent input path s t = Silent-bind _ _ (open_sftp_file-Silent s path true t) λ remote.
    Silent-on_pointer remote _ _ (Silent-bind _ _ (session_error-Silent _ _) (λ m. Silent-pure _))
      (λ h.
        Silent-bind _ _ (Silent-loop _ _ (upload_round-Silent s input h))
          (finish_upload-Silent s input h))

discard-Silent :
    (s : SessionState) (h output : ℕ) (path : Bytes) (m : Io NativeResult)
    → Silent m
    → Silent (discard s h output path m)
unfolding discard is_credential
discard-Silent s h output path m k =
    Silent-bind _ _ (close_sftp_handle-Silent s h)
      λ _. Silent-bind _ _ (Quiet-ask _ refl) (λ _. Silent-bind _ _ (Quiet-ask _ refl) (λ _. k))

save-Silent :
    (s : SessionState) (h output : ℕ) (path : Bytes) (t : Transfer) (n : ℕ) (bytes : Bytes)
    → Silent (save s h output path t n bytes)
unfolding save is_credential
save-Silent s h output path t n bytes =
    search (silent_rules, discard-Silent, deadline_after-Silent) depth 14

receive_reply-Silent :
    (s : SessionState) (h output : ℕ) (path : Bytes) (t : Transfer) (r : Reply) (b : Bool)
    → Silent (receive_reply s h output path t r b)
unfolding receive_reply
receive_reply-Silent s h output path t r b =
    search (silent_rules, discard-Silent, save-Silent, wait_socket-Silent, session_error-Silent)
      depth 14

finish_download-Silent :
    (s : SessionState) (h output : ℕ) (path : Bytes) (o : NativeResult ⊎ Transfer)
    → Silent (finish_download s h output path o)
unfolding finish_download is_credential
finish_download-Silent s h output path (inl r) = Silent-pure r
finish_download-Silent s h output path (inr t) =
    search (silent_rules, discard-Silent, close_sftp_handle-Silent, session_error-Silent) depth 16

download_file-Silent :
    (s : SessionState) (t h : ℕ) (path : Bytes) (output : ℕ)
    → Silent (download_file s t h path output)
unfolding download_file receive_round is_credential
download_file-Silent s t h path output =
    Silent-bind _ _
      (Silent-loop _ _ (λ x. Silent-bind _ _ (Quiet-ask _ refl) λ r.
        Silent-bind _ _ (Quiet-test_again r) (λ b. receive_reply-Silent s h output path x r b)))
      (finish_download-Silent s h output path)

pub download_body-Silent :
    (remote local : Bytes) (s : SessionState) (t : ℕ) → Silent (download_body remote local s t)
unfolding download_body download_to is_credential
download_body-Silent remote local s t =
    Silent-bind _ _ (open_sftp_file-Silent s remote false t) λ o.
      Silent-on_pointer o _ _ (Silent-bind _ _ (session_error-Silent _ _) (λ m. Silent-pure _)) λ h.
        Silent-bind _ _ (Quiet-ask _ refl) λ r.
          Silent-on_pointer r.pointer _ _ (give_up_handle-Silent s h _ (Silent-pure _))
            (download_file-Silent s t h local)
