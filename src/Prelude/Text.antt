-- ===== src/Prelude/Text.antt =====
-- std::string as a list of bytes, and its decimal, comparison and search functions.
use Prim.Native.Char.{code}
use Prim.Native.Nat.{ℕ, zero, suc, ◌+◌, ◌<◌, ◌/◌, ◌%◌}
use Prim.Native.String.{String}
use mathlib.Core.Path.{◌≡◌, refl}
use mathlib.Core.Logic.{◌↔◌}
use mathlib.Core.Bool.{Bool, true, false, ◌&&◌}
use mathlib.Core.List.{List, [], ◌∷◌}
use native.Mathlib.Omega.{arith}
use tabssh_harmonyos.Prelude.Tests.{ltb, ◌==◌, if◌then◌else◌}
use tabssh_harmonyos.Prelude.Lists.{All}

-- The bytes of a std::string, each below 256.
abbrev pub Bytes : Type 0
Bytes = List ℕ

abbrev pub IsByte : ℕ → Type 0
IsByte c = c < 256

abbrev pub AreBytes : Bytes → Type 0
AreBytes = All IsByte

-- The bytes of a literal of the source. Every literal is ASCII.
unfoldable pub codes : String → Bytes
codes String.[] = []
codes (String.◌∷◌ c s) = code c ∷ codes s

-- `left == right` on std::string.
unfoldable pub equal : Bytes → Bytes → Bool
equal [] [] = true
equal (x ∷ xs) (y ∷ ys) = x == y && equal xs ys
equal _ _ = false

equal_sound : (left right : Bytes) → equal left right ≡ true → left ≡ right
unfolding equal
equal_sound [] [] h = refl
equal_sound [] (y ∷ ys) h = absurd (ground arith)
equal_sound (x ∷ xs) [] h = absurd (ground arith)
equal_sound (x ∷ xs) (y ∷ ys) h = ground (arith, equal_sound xs ys)

pub equal_refl : (text : Bytes) → equal text text ≡ true
unfolding equal
equal_refl [] = refl
equal_refl (x ∷ xs) = ground (arith, equal_refl xs)

pub equal_iff : (left right : Bytes) → (equal left right ≡ true) ↔ (left ≡ right)
equal_iff left right = (equal_sound left right, λ e. rw e (equal_refl right))

-- `empty()`.
abbrev pub is_empty : Bytes → Bool
is_empty [] = true
is_empty (x ∷ xs) = false

-- `left < right` on std::string, the order of std::map's keys.
unfoldable pub less : Bytes → Bytes → Bool
less a [] = false
less [] (y ∷ ys) = true
less (x ∷ xs) (y ∷ ys) = if x == y then less xs ys else ltb x y

-- Whether the text begins with the token.
unfoldable pub starts_with : Bytes → Bytes → Bool
starts_with [] s = true
starts_with (t ∷ ts) [] = false
starts_with (t ∷ ts) (c ∷ s) = t == c && starts_with ts s

-- `std::to_string`, on fuel: a number has no more digits than its value.
pub digits_onto : ℕ → ℕ → Bytes → Bytes
digits_onto zero n out = out
digits_onto (suc f) n out =
    let rest = digits_onto f (n / 10) ((b'0' + n % 10) ∷ out) in
    if ltb n 10 then (b'0' + n) ∷ out else rest

unfoldable pub decimal : ℕ → Bytes
unfolding digits_onto
decimal n = digits_onto (suc n) n []
