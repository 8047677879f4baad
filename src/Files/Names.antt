-- ===== src/Files/Names.antt =====
-- The names of the rotated files: two that are built from different numbers differ.
use mathlib.Core.List.{append_cancel_left, append_cancel_right}
use zyrnix.Prelude.{
  ℕ, zero, suc, ◌+◌, ◌/◌, ◌%◌, ◌≤◌, ◌≡◌, ◌≢◌, sym, ap, subst, ◌∙◌, true, false, [], ◌∷◌, ◌++◌, ltb,
  ◌==◌, ==_iff, arith, Text, text_eq, text_eq_iff, text_eq_refl, decimal, digits, decimal_injective,
  All, All-append, length, length-append, Bool-cases, inl, inr, if-both,
}
use zyrnix.Files.Shift.{IsNaming}

-- A test of two texts that differ.
pub text_eq-false : (s t : Text) → s ≢ t → text_eq s t ≡ false
text_eq-false s t h = elim (Bool-cases (text_eq s t)) [
  | inl e ↦ absurd (h ((text_eq_iff s t).0 e))
  | inr e ↦ e
]

-- `to_string` of a number has digits only.
digits_ge : (fuel n : ℕ) → All (λ d. 48 ≤ d) (digits fuel n)
unfolding digits
digits_ge zero n = tt
digits_ge (suc fuel) n =
    if-both (All (λ d. 48 ≤ d)) (ltb n 10) (omega arith, tt)
      (All-append (λ d. 48 ≤ d) (digits fuel (n / 10)) ((48 + n % 10) ∷ [])
        (digits_ge fuel (n / 10)) (omega arith, tt))

pub decimal_ge : (n : ℕ) → All (λ d. 48 ≤ d) (decimal n)
unfolding decimal
decimal_ge n = digits_ge (n + 1) n

same : (i : ℕ) → true ≡ (i == i)
same i = ground arith

differ : (i j : ℕ) → (i == j) ≡ false → i ≢ j
differ i j e h = ground (arith, e, h)

-- Names that hold a number between two fixed texts.
pub numbered-IsNaming : (before after : Text) → IsNaming (λ i. before ++ (decimal i ++ after))
numbered-IsNaming before after i j = elim (Bool-cases (i == j)) [
  | inl e ↦
      subst
        (λ k. text_eq (before ++ (decimal i ++ after)) (before ++ (decimal k ++ after)) ≡ (i == k))
        ((==_iff i j).0 e) (text_eq_refl (before ++ (decimal i ++ after)) ∙ same i)
  | inr e ↦
      text_eq-false (before ++ (decimal i ++ after)) (before ++ (decimal j ++ after)) (λ h.
        differ i j e (
          decimal_injective i j (
            append_cancel_right (decimal i) (decimal j) after
              (append_cancel_left before (decimal i ++ after) (decimal j ++ after) h))))
      ∙ sym e
]

-- A text with something behind it differs from the text.
pub longer : (s t : Text) (c : ℕ) → s ++ c ∷ t ≢ s
longer s t c h = absurd (omega (arith, length-append s (c ∷ t), ap length h))
