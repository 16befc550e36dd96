-- ===== src/Mock/Sessions.antt =====
-- `Disconnect` of entry/src/main/cpp/native_ssh_mock.cpp.
use tabssh_harmonyos.Prelude.{
  ◌≡◌, ◌≢◌, sym, ap, ◌∙◌, false, some, arith, Bytes, equal_iff, equal_refl,
}
use tabssh_harmonyos.Prelude.Map.{lookup, lookup-insert, erase_if, erase_if-kept, lookup-erase_if}
use tabssh_harmonyos.Mock.{Mock, SessionState, ChannelState, belongs_to, disconnect}

-- The channels that are left do not depend on whether the session was there.
channels_left :
    (id : Bytes) (m : Mock) → (disconnect id m).1.channels ≡ erase_if (belongs_to id) m.channels
unfolding disconnect
channels_left id m = ground arith

-- After `Disconnect` no channel of the session is left, every channel of another session is as it was,
-- and the session, if it was there, still is, and is not connected.
pub disconnect_lem :
    (id : Bytes) (m : Mock)
    → ((key : Bytes) (c : ChannelState)
        → lookup key (disconnect id m).1.channels ≡ some c
        → c.session_id ≢ id)
      × ((key : Bytes) (c : ChannelState)
          → lookup key m.channels ≡ some c
          → c.session_id ≢ id
          → lookup key (disconnect id m).1.channels ≡ some c)
      × ((s : SessionState)
          → lookup id m.sessions ≡ some s
          → lookup id (disconnect id m).1.sessions ≡ some (record { connected = false }))
unfolding disconnect
disconnect_lem id m = (
  λ key c h e.
      let k =
        erase_if-kept (belongs_to id) key c m.channels
          (sym (ap (lookup key) (channels_left id m)) ∙ h) in
      ground (arith, equal_iff c.session_id id, k),
  λ key c h n.
      ap (lookup key) (channels_left id m)
      ∙ lookup-erase_if (belongs_to id) key c m.channels h
          (ground (arith, equal_iff c.session_id id)),
  λ s h.
      ground
        (arith, h, lookup-insert id id (record s { connected = false }) m.sessions, equal_refl id),
)
