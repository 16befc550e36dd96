-- ===== src/Ssh/Forward/Relay/Buffers.antt =====
-- The buffers of `RelayForwardConnection` in entry/src/main/cpp/native_ssh_libssh2.cpp.
use tabssh_harmonyos.Prelude.{
  ◌≤◌, ◌≡◌, refl, sym, Bool, true, false, [], ◌++◌, arith, drop, drop_all, drop-add, drop-append_le,
  length, length-drop, length-append, take, ==_iff, if◌then◌else◌,
}
use tabssh_harmonyos.Prelude.Int.{pos_part}
use tabssh_harmonyos.Ssh.Calls.{Reply}
use tabssh_harmonyos.Ssh.Forward.Relay.{
  Buffer, empty_buffer, is_drained, recycle, pending, fill, advance,
}

-- No more has been passed on than there was.
abbrev pub IsWithin : Buffer → Type 0
IsWithin buffer = buffer.offset ≤ length buffer.text

pub is_drained-pending : (b : Buffer) → is_drained b ≡ true → pending b ≡ []
unfolding is_drained pending
is_drained-pending b h = drop_all b.offset b.text (ground (arith, ==_iff b.offset (length b.text)))

pub pending-recycle : (b : Buffer) → pending (recycle b) ≡ pending b
unfolding recycle pending
pending-recycle b = either (is_drained b) refl
  where
    either : (c : Bool) → is_drained b ≡ c → pending (if c then empty_buffer else b) ≡ pending b
    either true h = unfold pending in sym (is_drained-pending b h)
    either false h = refl

pub recycle-IsWithin : (b : Buffer) → IsWithin b → IsWithin (recycle b)
unfolding recycle
recycle-IsWithin b h = ground arith

pub pending-fill :
    (r : Reply) (b : Buffer)
    → IsWithin b
    → pending (fill r b) ≡ pending b ++ take (pos_part r.value) r.bytes
unfolding pending fill
pending-fill r b h = drop-append_le b.offset b.text _ h

pub fill-IsWithin : (r : Reply) (b : Buffer) → IsWithin b → IsWithin (fill r b)
unfolding fill
fill-IsWithin r b h = omega (arith, length-append b.text (take (pos_part r.value) r.bytes), h)

pub pending-advance :
    (r : Reply) (b : Buffer) → pending (advance r b) ≡ drop (pos_part r.value) (pending b)
unfolding pending advance
pending-advance r b = drop-add b.offset (pos_part r.value) b.text

pub advance-IsWithin :
    (r : Reply) (b : Buffer)
    → IsWithin b
    → pos_part r.value ≤ length (pending b)
    → IsWithin (advance r b)
unfolding pending advance
advance-IsWithin r b h le = omega (arith, h, le, length-drop b.offset b.text)
