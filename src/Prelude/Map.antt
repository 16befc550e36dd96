-- ===== src/Prelude/Map.antt =====
-- std::map with byte-string keys: an association list in key order, with unique keys.
use mathlib.Core.Path.{◌≡◌, refl, sym, ◌∙◌}
use mathlib.Core.Logic.{◌⊎◌, inl, inr}
use mathlib.Core.Bool.{Bool, true, false}
use mathlib.Core.List.{List, [], ◌∷◌}
use mathlib.Core.Option.{Option, none, some}
use native.Mathlib.Omega.{arith}
use tabssh_harmonyos.Prelude.Tests.{if◌then◌else◌}
use tabssh_harmonyos.Prelude.Text.{Bytes, equal, equal_iff, equal_refl, less}

abbrev pub Map {ℓ} : Type ℓ → Type ℓ
Map V = List (Bytes × V)

module _ {ℓ} {V : Type ℓ} where
  -- `find`.
  unfoldable pub lookup : Bytes → Map V → Option V
  lookup k [] = none
  lookup k ((j, v) ∷ m) = if equal j k then some v else lookup k m

  -- `operator[]` with an assignment.
  unfoldable pub insert : Bytes → V → Map V → Map V
  insert k v [] = (k, v) ∷ []
  insert k v ((j, w) ∷ m) =
      if equal j k
      then (k, v) ∷ m
      else if less k j
      then (k, v) ∷ (j, w) ∷ m
      else (j, w) ∷ insert k v m

  -- The entries whose value fails the test, in order: a loop of `erase` under a condition.
  unfoldable pub erase_if : (Bytes → V → Bool) → Map V → Map V
  erase_if p [] = []
  erase_if p ((j, w) ∷ m) = if p j w then erase_if p m else (j, w) ∷ erase_if p m

  -- `erase` by key.
  unfoldable pub erase : Bytes → Map V → Map V
  unfolding erase_if
  erase k = erase_if (λ j _. equal j k)

  pub lookup-insert :
      (k j : Bytes) (v : V) (m : Map V)
      → lookup j (insert k v m) ≡ (if equal k j then some v else lookup j m)
  unfolding lookup insert
  lookup-insert k j v [] = refl
  lookup-insert k j v ((i, w) ∷ m) =
      ground (arith, equal_iff k j, equal_iff i k, equal_iff i j, lookup-insert k j v m)

  pub lookup-insert_self : (k : Bytes) (v : V) (m : Map V) → lookup k (insert k v m) ≡ some v
  lookup-insert_self k v m = rw (lookup-insert k k v m, equal_refl k)

  pub erase-insert : (k : Bytes) (v : V) (m : Map V) → erase k (insert k v m) ≡ erase k m
  unfolding erase erase_if insert
  erase-insert k v [] = ground (arith, equal_refl k)
  erase-insert k v ((j, w) ∷ m) = ground (arith, equal_refl k, equal_iff j k, erase-insert k v m)

  pub lookup-erase :
      (k j : Bytes) (m : Map V) → lookup j (erase k m) ≡ (if equal k j then none else lookup j m)
  unfolding lookup erase
  lookup-erase k j [] = ground arith
  lookup-erase k j ((i, w) ∷ m) =
      ground (arith, equal_iff k j, equal_iff i k, equal_iff i j, lookup-erase k j m)

  -- What a loop of `erase` leaves under a key, where the keys are unique or not.
  pub lookup-erase_if-none :
      (p : Bytes → V → Bool) (j : Bytes) (m : Map V)
      → lookup j m ≡ none
      → lookup j (erase_if p m) ≡ none
  unfolding lookup erase_if
  lookup-erase_if-none p j [] h = refl
  lookup-erase_if-none p j ((i, w) ∷ m) h = ground (arith, lookup-erase_if-none p j m)

  pub lookup-insert_cases :
      (k j : Bytes) (v w : V) (m : Map V)
      → lookup j (insert k v m) ≡ some w
      → (v ≡ w) ⊎ (lookup j m ≡ some w)
  lookup-insert_cases k j v w m e = split (equal k j) (sym (lookup-insert k j v m) ∙ e)
    where
      split :
          (b : Bool) → (if b then some v else lookup j m) ≡ some w → (v ≡ w) ⊎ (lookup j m ≡ some w)
      split true h = inl (cc)
      split false h = inr h

  pub lookup-erase_kept :
      (k j : Bytes) (w : V) (m : Map V) → lookup j (erase k m) ≡ some w → lookup j m ≡ some w
  lookup-erase_kept k j w m e = split (equal k j) (sym (lookup-erase k j m) ∙ e)
    where
      split : (b : Bool) → (if b then none else lookup j m) ≡ some w → lookup j m ≡ some w
      split true h = cc
      split false h = h

  -- A loop of `erase` leaves only entries that fail its test.
  pub erase_if-kept :
      (p : Bytes → V → Bool) (j : Bytes) (w : V) (m : Map V)
      → lookup j (erase_if p m) ≡ some w
      → p j w ≡ false
  unfolding lookup erase_if
  erase_if-kept p j w [] h = cc
  erase_if-kept p j w ((i, v) ∷ m) h = ground (arith, equal_iff i j, erase_if-kept p j w m)

  -- It leaves what fails its test, where a key stands once.
  pub lookup-erase_if :
      (p : Bytes → V → Bool) (j : Bytes) (w : V) (m : Map V)
      → lookup j m ≡ some w
      → p j w ≡ false
      → lookup j (erase_if p m) ≡ some w
  unfolding lookup erase_if
  lookup-erase_if p j w [] h k = cc
  lookup-erase_if p j w ((i, v) ∷ m) h k = ground (arith, equal_iff i j, lookup-erase_if p j w m)
