-- ===== src/Ssh/Trust/Requests.antt =====
-- The SFTP requests and the listing of entry/src/main/cpp/native_ssh_libssh2.cpp send no credentials.
use tabssh_harmonyos.Prelude.{
  ℕ, ◌≡◌, refl, Bool, true, false, ◌⊎◌, inl, inr, Option, none, some, Bytes,
}
use tabssh_harmonyos.Json.Result.{NativeResult}
use tabssh_harmonyos.Ssh.Calls.{Call, Reply, Io}
use tabssh_harmonyos.Ssh.Effects.{
  is_credential, Quiet-ask, Quiet-test_again, Silent, Silent-pure, Silent-bind, Silent-loop,
  silent_rules,
}
use tabssh_harmonyos.Ssh.Sftp.{Acquired, got, timed_out, refused}
use tabssh_harmonyos.Ssh.Sftp.Listing.{
  Listed, abandon, attributes_of, list_reply, list_round, finish_listing, list_directory, list_body,
}
use tabssh_harmonyos.Ssh.Sftp.Requests.{Messages, request_result, request, removal}
use tabssh_harmonyos.Ssh.State.{SessionState}
use tabssh_harmonyos.Ssh.Trust.Silence.{wait_socket-Silent, retry-Silent, session_error-Silent}
use tabssh_harmonyos.Ssh.Trust.Transfers.{acquire-Silent}

request_result-Silent :
    (s : SessionState) (m : Messages) (o : Option Reply) → Silent (request_result s m o)
unfolding request_result
request_result-Silent s m none = Silent-pure _
request_result-Silent s m (some r) = search (silent_rules, session_error-Silent)

pub request-Silent :
    (call : ℕ → Call) (m : Messages)
    → ((sftp : ℕ) → is_credential (call sftp) ≡ false)
    → (s : SessionState) (t : ℕ) → Silent (request call m s t)
unfolding request
request-Silent call m h s t =
    Silent-bind _ _ (retry-Silent _ _ (h _) (wait_socket-Silent _ _ t)) (request_result-Silent s m)

attributes_of-Silent : (r : Reply) → Silent (attributes_of r)
unfolding attributes_of
attributes_of-Silent r = record { at = λ env log. (tt, refl) }

abandon-Silent : (d : ℕ) (m : Io NativeResult) → Silent m → Silent (abandon d m)
unfolding abandon is_credential
abandon-Silent d m h =
    Silent-bind _ _ (Quiet-ask _ refl) (λ _. Silent-bind _ _ h (λ r. Silent-pure _))

list_reply-Silent :
    (s : SessionState) (w : Io Bool) (path : Bytes) (d : ℕ) (l : Listed) (r : Reply) (b : Bool)
    → Silent w
    → Silent (list_reply s w path d l r b)
unfolding list_reply
list_reply-Silent s w path d l r b h =
    search (silent_rules, abandon-Silent, attributes_of-Silent, session_error-Silent) depth 12

finish_listing-Silent :
    (w : Io Bool) (d : ℕ) (o : NativeResult ⊎ Listed) → Silent w → Silent (finish_listing w d o)
unfolding finish_listing is_credential
finish_listing-Silent w d (inl r) h = Silent-pure r
finish_listing-Silent w d (inr l) h = Silent-bind _ _ (retry-Silent _ _ refl h) (λ _. Silent-pure _)

list_directory-Silent :
    (s : SessionState) (w : Io Bool) (path : Bytes) (a : Acquired)
    → Silent w
    → Silent (list_directory s w path a)
unfolding list_directory list_round is_credential
list_directory-Silent s w path (got d) h =
    Silent-bind _ _
      (Silent-loop _ _ (λ l.
        Silent-bind _ _ (Quiet-ask _ refl)
          λ r. Silent-bind _ _ (Quiet-test_again r) (λ b. list_reply-Silent s w path d l r b h)))
      (λ o. finish_listing-Silent w d o h)
list_directory-Silent s w path timed_out h = Silent-pure _
list_directory-Silent s w path refused h =
    Silent-bind _ _ (session_error-Silent _ _) (λ m. Silent-pure _)

pub list_body-Silent : (path : Bytes) (s : SessionState) (t : ℕ) → Silent (list_body path s t)
unfolding list_body is_credential
list_body-Silent path s t =
    let w = wait_socket-Silent _ _ t in
    Silent-bind _ _ (acquire-Silent s _ _ refl w) (λ a. list_directory-Silent s _ path a w)

pub removal-Silent :
    (path : Bytes) (directory : Bool) (sftp : ℕ)
    → is_credential (removal path directory sftp) ≡ false
unfolding removal is_credential
removal-Silent path true sftp = refl
removal-Silent path false sftp = refl
