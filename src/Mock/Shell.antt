-- ===== src/Mock/Shell.antt =====
-- The terminal of the mock core: what is written comes back by reading.
use tabssh_harmonyos.Prelude.{
  ◌≡◌, ap, ◌∙◌, true, [], ◌∷◌, ◌++◌, Option, none, some, append_assoc, append-nil, arith, Bytes,
  codes, equal_refl, Option-cases, inl, inr, List,
}
use tabssh_harmonyos.Prelude.Map.{lookup, lookup-insert, lookup-insert_self}
use tabssh_harmonyos.Mock.{
  Mock, ChannelState, next_id, mock_prompt, open_shell, echoed, write, read,
}

-- The output for several inputs in turn.
abbrev pub all_echoed : List Bytes → Bytes
all_echoed [] = []
all_echoed (input ∷ inputs) = echoed input ++ all_echoed inputs

abbrev pub write_all : Bytes → List Bytes → Mock → Mock
write_all id [] m = m
write_all id (input ∷ inputs) m = write_all id inputs (write id input m).1

-- The output that a channel holds.
abbrev pub output_of : Option ChannelState → Option Bytes
output_of none = none
output_of (some c) = some c.pending_output

abbrev pub pending : Bytes → Mock → Option Bytes
pending id m = output_of (lookup id m.channels)

pending-write :
    (id input out : Bytes) (m : Mock)
    → pending id m ≡ some out
    → pending id (write id input m).1 ≡ some (out ++ echoed input)
unfolding write
pending-write id input out m h = elim (Option-cases (lookup id m.channels)) [
  | inl e ↦ absurd (ground (arith, e))
  | inr (c, e) ↦
      let stored =
        lookup-insert id id (record c { pending_output = c.pending_output ++ echoed input })
          m.channels in
      ground (arith, e, stored, equal_refl id)
]

pending-read :
    (id out : Bytes) (m : Mock)
    → pending id m ≡ some out
    → ((read id m).0.ok ≡ true)
      × ((read id m).0.payload ≡ out)
      × (pending id (read id m).1 ≡ some [])
unfolding read
pending-read id out m h = elim (Option-cases (lookup id m.channels)) [
  | inl e ↦ absurd (ground (arith, e))
  | inr (c, e) ↦
      let stored = lookup-insert id id (record c { pending_output = [] }) m.channels in
      ground (arith, e, stored, equal_refl id)
]

pending-write_all :
    (id : Bytes) (inputs : List Bytes) (out : Bytes) (m : Mock)
    → pending id m ≡ some out
    → pending id (write_all id inputs m) ≡ some (out ++ all_echoed inputs)
pending-write_all id [] out m h = rw append-nil h
pending-write_all id (input ∷ inputs) out m h =
    pending-write_all id inputs _ _ (pending-write id input out m h)
    ∙ rw (append_assoc out (echoed input) (all_echoed inputs))

pending-open_shell :
    (session_id : Bytes) (m : Mock)
    → pending (open_shell session_id m).0 (open_shell session_id m).1 ≡ some mock_prompt
unfolding open_shell
pending-open_shell session_id m =
    ap output_of (lookup-insert_self (next_id (codes "channel") m).0 _ _)

-- A shell that is opened, written to any number of times and then read gives back the prompt and what
-- each input prints, in order; and a second read gives nothing.
pub read-write_all-open_shell :
    (session_id : Bytes) (inputs : List Bytes) (m : Mock)
    → let id = (open_shell session_id m).0 in
      let written = write_all id inputs (open_shell session_id m).1 in
      ((read id written).0.ok ≡ true)
      × ((read id written).0.payload ≡ mock_prompt ++ all_echoed inputs)
      × ((read id (read id written).1).0.payload ≡ [])
read-write_all-open_shell session_id inputs m =
    let id = (open_shell session_id m).0 in
    let written = write_all id inputs (open_shell session_id m).1 in
    let first =
      pending-read id _ written
        (pending-write_all id inputs _ _ (pending-open_shell session_id m)) in
    (first.0, first.1, (pending-read id [] (read id written).1 first.2).1)
