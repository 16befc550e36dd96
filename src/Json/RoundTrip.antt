-- ===== src/Json/RoundTrip.antt =====
-- `ParseJsonString` reads back what `EscapeJson` writes.
use mathlib.Core.Path.{ap₂}
use tabssh_harmonyos.Prelude.{
  ℕ, zero, suc, ◌+◌, ◌/◌, ◌%◌, ◌<◌, ◌≤◌, ◌≡◌, refl, sym, ◌∙◌, ap, Bool, true, false, inl, inr, [],
  ◌∷◌, ◌++◌, Option, none, some, arith, Bytes, ltb, ◌==◌, ==_iff, Bool-cases, if◌then◌else◌, length,
  length-append, drop-append, append_assoc, append-nil,
}
use tabssh_harmonyos.Prelude.Bits.{holds_to, holds_to_at}
use tabssh_harmonyos.Json.Escape.{hex_char, escape_byte, escape_json}
use tabssh_harmonyos.Json.Utf8.{append_utf8}
use tabssh_harmonyos.Json.Parse.{code_point, parse_loop, unescape, parse_json_string}

-- The two digits that are written for a control character.
abbrev control_digits : ℕ → Bytes
control_digits c = b'0' ∷ b'0' ∷ hex_char (c / 16 % 16) ∷ hex_char (c % 16) ∷ []

abbrev reads_back : Option ℕ → ℕ → Bool
reads_back none c = false
reads_back (some d) c = d == c

control_table : holds_to (λ c. reads_back (code_point 0 (control_digits c)) c) 31 ≡ true
unfolding holds_to code_point escape_byte
control_table = refl

reads_back_sound : (o : Option ℕ) (c : ℕ) → reads_back o c ≡ true → o ≡ some c
reads_back_sound none c h = cc
reads_back_sound (some d) c h = ap some ((==_iff d c).0 h)

code_point_control : (c : ℕ) → c < 32 → code_point 0 (control_digits c) ≡ some c
code_point_control c h = reads_back_sound _ c (
    holds_to_at (λ c. reads_back (code_point 0 (control_digits c)) c) 31 c control_table
      (omega arith))

-- The three forms in which a byte is written.
data Written (c : ℕ) : Bytes → Type 0 where
  plain : (c == b'"') ≡ false → (c == b'\\') ≡ false → Written c (c ∷ [])
  letter : (e : ℕ) → (e == b'u') ≡ false → unescape e ≡ some c → Written c (b'\\' ∷ e ∷ [])
  control : c < 32 → Written c (b'\\' ∷ b'u' ∷ control_digits c)

letter_of :
    (c e : ℕ)
    → (e == b'u') ≡ false
    → unescape e ≡ some c
    → (d : ℕ) → d ≡ c
    → Written d (b'\\' ∷ e ∷ [])
letter_of c e h u d q = letter e h (u ∙ ap some (sym q))

escape_byte-Written : (c : ℕ) → Written c (escape_byte c)
unfolding escape_byte unescape
escape_byte-Written c = elim (Bool-cases (c == b'\\')) [
  | inl h ↦ rw h (letter_of b'\\' b'\\' refl refl c ((==_iff _ _).0 h))
  | inr n1 ↦ elim (Bool-cases (c == b'"')) [
    | inl h ↦ rw (n1, h) (letter_of b'"' b'"' refl refl c ((==_iff _ _).0 h))
    | inr n2 ↦ elim (Bool-cases (c == 8)) [
      | inl h ↦ rw (n1, n2, h) (letter_of 8 b'b' refl refl c ((==_iff _ _).0 h))
      | inr n3 ↦ elim (Bool-cases (c == 12)) [
        | inl h ↦ rw (n1, n2, n3, h) (letter_of 12 b'f' refl refl c ((==_iff _ _).0 h))
        | inr n4 ↦ rw (n1, n2, n3, n4) (late c n2 n1)
      ]
    ]
  ]
]
  where
    late :
        (c : ℕ)
        → (c == b'"') ≡ false
        → (c == b'\\') ≡ false
        → Written c (
            if c == b'\n'
            then b'\\' ∷ b'n' ∷ []
            else if c == b'\r'
            then b'\\' ∷ b'r' ∷ []
            else if c == b'\t'
            then b'\\' ∷ b't' ∷ []
            else if ltb c 32
            then b'\\' ∷ b'u' ∷ control_digits c
            else c ∷ [])
    late c q b = elim (Bool-cases (c == b'\n')) [
      | inl h ↦ rw h (letter_of b'\n' b'n' refl refl c ((==_iff _ _).0 h))
      | inr n1 ↦ elim (Bool-cases (c == b'\r')) [
        | inl h ↦ rw (n1, h) (letter_of b'\r' b'r' refl refl c ((==_iff _ _).0 h))
        | inr n2 ↦ elim (Bool-cases (c == b'\t')) [
          | inl h ↦ rw (n1, n2, h) (letter_of b'\t' b't' refl refl c ((==_iff _ _).0 h))
          | inr n3 ↦ elim (Bool-cases (ltb c 32)) [
            | inl h ↦ rw (n1, n2, n3, h) (control (ground arith))
            | inr n4 ↦ rw (n1, n2, n3, n4) (plain q b)
          ]
        ]
      ]
    ]

append_utf8_ascii : (v : Bytes) (c : ℕ) → c < 128 → append_utf8 v c ≡ v ++ c ∷ []
unfolding append_utf8
append_utf8_ascii v c h = ground arith

-- One round of the loop reads what was written for one byte.
parse_loop-Written :
    (f i : ℕ) (v : Bytes) (c : ℕ) (w s : Bytes)
    → Written c w
    → parse_loop (suc f) i v (w ++ s) ≡ parse_loop f (i + length w) (v ++ c ∷ []) s
parse_loop-Written f i v c w s (plain q b) = unfold parse_loop in rw (q, b)
parse_loop-Written f i v c w s (letter e n u) =
    unfold parse_loop in rw (n, u) (ap (λ j. parse_loop f j (v ++ c ∷ []) s) (omega arith))
parse_loop-Written f i v c w s (control lt) =
    unfold parse_loop in
    rw (code_point_control c lt)
      (ap₂ (λ j u. parse_loop f j u s) (omega arith) (append_utf8_ascii v c (omega arith)))

-- The loop reads a whole written text, up to the closing quote.
pub parse_loop-escape_json :
    (text : Bytes) (f i : ℕ) (v rest : Bytes)
    → length text < f
    → parse_loop f i v (escape_json text ++ b'"' ∷ rest)
      ≡ some (v ++ text, i + length (escape_json text) + 1)
unfolding escape_json
parse_loop-escape_json [] zero i v rest h = absurd (omega arith)
parse_loop-escape_json [] (suc f) i v rest h =
    unfold parse_loop in rw append-nil (ap (λ j. some (v, j)) (omega arith))
parse_loop-escape_json (c ∷ text) zero i v rest h = absurd (omega arith)
parse_loop-escape_json (c ∷ text) (suc f) i v rest h =
    rw (append_assoc (escape_byte c) (escape_json text) (b'"' ∷ rest)) (
      parse_loop-Written f i v c (escape_byte c) _ (escape_byte-Written c)
      ∙ parse_loop-escape_json text f _ (v ++ c ∷ []) rest (omega arith)
      ∙ ap₂ (λ u j. some (u, j)) (append_assoc v (c ∷ []) text)
          (omega (arith, length-append (escape_byte c) (escape_json text))))

length-Written : (c : ℕ) (w : Bytes) → Written c w → 1 ≤ length w
length-Written c w (plain q b) = omega arith
length-Written c w (letter e n u) = omega arith
length-Written c w (control lt) = omega arith

pub length-escape_json : (text : Bytes) → length text ≤ length (escape_json text)
unfolding escape_json
length-escape_json [] = omega arith
length-escape_json (c ∷ text) = omega (
  arith,
  length-append (escape_byte c) (escape_json text),
  length-Written c (escape_byte c) (escape_byte-Written c),
  length-escape_json text,
)

-- Wherever a text is written between quotes by `EscapeJson`, `ParseJsonString` at its opening quote
-- returns that text, and the index behind the closing quote.
pub parse_json_string-escape_json :
    (before text rest : Bytes)
    → parse_json_string (before ++ b'"' ∷ (escape_json text ++ b'"' ∷ rest)) (length before)
      ≡ some (text, length before + length (escape_json text) + 2)
unfolding parse_json_string
parse_json_string-escape_json before text rest =
    rw (drop-append before (b'"' ∷ (escape_json text ++ b'"' ∷ rest))) (
      parse_loop-escape_json text _ (length before + 1) [] rest (
        omega (
          arith,
          length-append before (b'"' ∷ (escape_json text ++ b'"' ∷ rest)),
          length-append (escape_json text) (b'"' ∷ rest),
          length-escape_json text,
        ))
      ∙ ap (λ j. some (text, j)) (omega arith))
