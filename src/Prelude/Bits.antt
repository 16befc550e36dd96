-- ===== src/Prelude/Bits.antt =====
-- `^` and `|` are zero only on equal numbers and on zeros; checks over a small range by evaluation.
use Prim.Native.Nat.{
  ℕ, zero, suc, ◌+◌, ◌-◌, ◌*◌, ◌/◌, ◌%◌, ◌≤◌, ◌<◌, max, bit_or, bit_xor, digits, differ,
  bit_or-bitwise, bit_xor-bitwise,
}
use mathlib.Core.Path.{◌≡◌, refl, ◌∙◌, sym, ap}
use mathlib.Core.Logic.{◌↔◌}
use mathlib.Core.Bool.{Bool, true, false}
use native.Mathlib.Decide.{dec_le}
use native.Mathlib.Nat.{le_refl}
use tabssh_harmonyos.Prelude.Tests.{if◌then◌else◌}
use native.Mathlib.Omega.{arith}

differ-eq-zero : (a b : ℕ) → differ a b ≡ 0 → a ≡ b
differ-eq-zero zero b h = sym h
differ-eq-zero (suc a) zero h = h
differ-eq-zero (suc a) (suc b) h = omega (arith, differ-eq-zero a b h)

differ_self : (a : ℕ) → differ a a ≡ 0
differ_self zero = refl
differ_self (suc a) = differ_self a

xor_digits-eq-zero : (n a b : ℕ) → a ≤ n → digits (λ y. y) differ n a b ≡ 0 → a ≡ b
xor_digits-eq-zero zero a b p h = omega arith
xor_digits-eq-zero (suc n) zero b p h = omega arith
xor_digits-eq-zero (suc n) (suc a) b p h = omega (
  arith,
  xor_digits-eq-zero n (suc a / 2) (b / 2) (omega arith) (omega arith),
  differ-eq-zero (suc a % 2) (b % 2) (omega arith),
)

xor_digits_self : (n a : ℕ) → a ≤ n → digits (λ y. y) differ n a a ≡ 0
xor_digits_self zero a p = omega arith
xor_digits_self (suc n) zero p = refl
xor_digits_self (suc n) (suc a) p =
    omega (arith, xor_digits_self n (suc a / 2) (omega arith), differ_self (suc a % 2))

pub bit_xor-eq-zero : (a b : ℕ) → (bit_xor a b ≡ 0) ↔ (a ≡ b)
bit_xor-eq-zero a b = (
  λ h. xor_digits-eq-zero a a b (le_refl _) (sym (bit_xor-bitwise a b) ∙ h),
  λ e. rw e (bit_xor-bitwise b b ∙ xor_digits_self b b (le_refl _)),
)

or_digits-eq-zero : (n a b : ℕ) → a ≤ n → digits (λ y. y) max n a b ≡ 0 → (a ≡ 0) × (b ≡ 0)
or_digits-eq-zero zero a b p h = (omega arith, h)
or_digits-eq-zero (suc n) zero b p h = (refl, h)
or_digits-eq-zero (suc n) (suc a) b p h =
    let ih = or_digits-eq-zero n (suc a / 2) (b / 2) (omega arith) (omega arith) in
    (omega arith, omega arith)

pub bit_or-eq-zero : (a b : ℕ) → (bit_or a b ≡ 0) ↔ ((a ≡ 0) × (b ≡ 0))
bit_or-eq-zero a b =
    (λ h. or_digits-eq-zero a a b (le_refl _) (sym (bit_or-bitwise a b) ∙ h), λ e. rw (e.0, e.1))

-- Whether a test holds of a number and of every number below it.
unfoldable pub holds_to : (ℕ → Bool) → ℕ → Bool
holds_to test zero = test zero
holds_to test (suc bound) = if test (suc bound) then holds_to test bound else false

both_hold : (b c : Bool) → (if b then c else false) ≡ true → (b ≡ true) × (c ≡ true)
both_hold b c h = ground arith

pub holds_to_at :
    (test : ℕ → Bool) (bound value : ℕ)
    → holds_to test bound ≡ true
    → value ≤ bound
    → test value ≡ true
unfolding holds_to
holds_to_at test zero value h small =
    let none_left : value ≡ 0 = omega arith in ap test none_left ∙ h
holds_to_at test (suc bound) value h small =
    let parts = both_hold (test (suc bound)) (holds_to test bound) h in
    elim (dec_le value bound) [
      | yes below ↦ holds_to_at test bound value parts.1 below
      | no above ↦ let last : value ≡ suc bound = omega arith in ap test last ∙ parts.0
    ]

-- `|` with a field that fits below: a sum. More fuel than the number does not matter.
suc_out : (k n : ℕ) → k + suc n ≡ suc (k + n)
suc_out k n = omega arith

or_digits_none : (n b : ℕ) → digits (λ y. y) max n 0 b ≡ b
or_digits_none zero b = refl
or_digits_none (suc n) b = refl

or_digits_more : (n k a b : ℕ) → a ≤ n → digits (λ y. y) max (k + n) a b ≡ digits (λ y. y) max n a b
or_digits_more n k zero b p = or_digits_none (k + n) b ∙ sym (or_digits_none n b)
or_digits_more zero k (suc a) b p = absurd (omega arith)
or_digits_more (suc n) k (suc a) b p =
    let halved = or_digits_more n k (suc a / 2) (b / 2) (omega arith) in
    ap (λ (m : ℕ). digits (λ y. y) max m (suc a) b) (suc_out k n)
    ∙ ap (λ (t : ℕ). t * 2 + max (suc a % 2) (b % 2)) halved

half_and_rest : (a : ℕ) → (a - suc a / 2) + suc a / 2 ≡ a
half_and_rest a = omega arith

bit_or-halves : (a b : ℕ) → bit_or a b ≡ bit_or (a / 2) (b / 2) * 2 + max (a % 2) (b % 2)
bit_or-halves zero b = omega (arith, bit_or-bitwise 0 b, bit_or-bitwise 0 (b / 2))
bit_or-halves (suc a) b = omega (
  arith,
  bit_or-bitwise (suc a) b,
  bit_or-bitwise (suc a / 2) (b / 2),
  or_digits_more (suc a / 2) (a - suc a / 2) (suc a / 2) (b / 2) (omega arith),
  ap (λ (n : ℕ). digits (λ y. y) max n (suc a / 2) (b / 2)) (half_and_rest a),
)

-- A field of width `m` fits below every multiple of `m`.
abbrev pub Fits : ℕ → Type 0
Fits m = (a r : ℕ) → r < m → bit_or (a * m) r ≡ a * m + r

Fits-double : (m : ℕ) → Fits m → Fits (2 * m)
Fits-double m h a r lt =
    let e : a * (2 * m) / 2 ≡ a * m = omega arith in
    omega (
      arith,
      bit_or-halves (a * (2 * m)) r,
      h a (r / 2) (omega arith),
      ap (λ (t : ℕ). bit_or t (r / 2)) e,
    )

or_digits-zero : (n a : ℕ) → a ≤ n → digits (λ y. y) max n a 0 ≡ a
or_digits-zero zero a p = omega arith
or_digits-zero (suc n) zero p = refl
or_digits-zero (suc n) (suc a) p = omega (arith, or_digits-zero n (suc a / 2) (omega arith))

Fits-one : Fits 1
Fits-one a r lt =
    let e : r ≡ 0 = omega arith in
    let e' : a * 1 ≡ a = omega arith in
    rw (e, e') (bit_or-bitwise a 0 ∙ or_digits-zero a a (le_refl _) ∙ omega arith)

pub Fits-sixteen : Fits 16
Fits-sixteen = Fits-double 8 (Fits-double 4 (Fits-double 2 (Fits-double 1 Fits-one)))

pub Fits-sextet : Fits 64
Fits-sextet = Fits-double 32 (Fits-double 16 Fits-sixteen)

pub Fits-byte : Fits 256
Fits-byte = Fits-double 128 (Fits-double 64 Fits-sextet)

pub Fits-word : Fits 65536
Fits-word =
    let f1024 = Fits-double 512 (Fits-double 256 Fits-byte) in
    let f4096 = Fits-double 2048 (Fits-double 1024 f1024) in
    let f16384 = Fits-double 8192 (Fits-double 4096 f4096) in
    Fits-double 32768 (Fits-double 16384 f16384)
