-- ===== src/Fingerprint/Compare.antt =====
-- What `ConstantTimeEqual` decides.
use Prim.Native.Nat.{bit_or, bit_xor}
use tabssh_harmonyos.Prelude.{
  ℕ, ◌≡◌, refl, ap, ◌∙◌, ◌↔◌, true, [], ◌∷◌, arith, Bytes, ==_iff, length,
}
use tabssh_harmonyos.Prelude.Bits.{bit_xor-eq-zero, bit_or-eq-zero}
use tabssh_harmonyos.Fingerprint.{accumulate, constant_time_equal}

-- A difference, once seen, stays; with none, texts of one length are equal.
accumulate-eq-zero :
    (left right : Bytes) (d : ℕ)
    → accumulate d left right ≡ 0
    → (d ≡ 0) × (length left ≡ length right → left ≡ right)
unfolding accumulate
accumulate-eq-zero [] [] d h = (h, λ _. refl)
accumulate-eq-zero (a ∷ left) [] d h =
    let ih = accumulate-eq-zero left [] (bit_or d (bit_xor a 0)) h in
    (((bit_or-eq-zero d (bit_xor a 0)).0 ih.0).0, λ e. absurd (omega arith))
accumulate-eq-zero [] (b ∷ right) d h =
    let ih = accumulate-eq-zero [] right (bit_or d (bit_xor 0 b)) h in
    (((bit_or-eq-zero d (bit_xor 0 b)).0 ih.0).0, λ e. absurd (omega arith))
accumulate-eq-zero (a ∷ left) (b ∷ right) d h =
    let ih = accumulate-eq-zero left right (bit_or d (bit_xor a b)) h in
    let parts = (bit_or-eq-zero d (bit_xor a b)).0 ih.0 in
    let same = (bit_xor-eq-zero a b).0 parts.1 in
    (parts.0, λ e. let tails = ih.1 (omega arith) in cc)

accumulate_self : (text : Bytes) → accumulate 0 text text ≡ 0
unfolding accumulate
accumulate_self [] = refl
accumulate_self (a ∷ text) =
    ap (λ d. accumulate d text text) ((bit_or-eq-zero 0 _).1 (refl, (bit_xor-eq-zero a a).1 refl))
    ∙ accumulate_self text

-- `ConstantTimeEqual` returns true exactly on equal texts, of any lengths and bytes.
pub constant_time_equal_iff :
    (left right : Bytes) → (constant_time_equal left right ≡ true) ↔ (left ≡ right)
unfolding constant_time_equal
constant_time_equal_iff left right = (
  λ h.
      let parts = accumulate-eq-zero left right _ ((==_iff _ 0).0 h) in
      parts.1 ((bit_xor-eq-zero (length left) (length right)).0 parts.0),
  λ e. rw e (
      (==_iff _ 0).1 (
        ap (λ d. accumulate d right right) ((bit_xor-eq-zero (length right) (length right)).1 refl)
        ∙ accumulate_self right)),
)
