-- ===== src/Prelude/Splits.antt =====
-- Joining texts, and parting them at a character.
use Prim.Native.Nat.{ℕ, zero, suc, ◌+◌, ◌/◌, ◌%◌, ◌<◌}
use mathlib.Core.Path.{◌≡◌, refl}
use mathlib.Core.Logic.{◌⊎◌, inl, inr}
use mathlib.Core.Bool.{Bool, true, not, ◌&&◌}
use mathlib.Core.List.{List, [], ◌∷◌, ◌++◌}
use native.Mathlib.Omega.{arith}
use zyrnix.Prelude.Tests.{ltb, ltb→lt, ◌==◌, ==_iff, if◌then◌else◌, Bool-cases}
use zyrnix.Prelude.Texts.{Text}
use zyrnix.Prelude.Decimal.{digits, decimal}

unfoldable pub concat : List Text → Text
concat [] = []
concat (t ∷ ts) = t ++ concat ts

-- The parts of a text between separators.
unfoldable pub split_on : ℕ → Text → List Text
split_on sep [] = [] ∷ []
split_on sep (c ∷ t) =
    let rest = split_on sep t in
    if c == sep
    then [] ∷ rest
    else elim rest [ [] ↦ (c ∷ []) ∷ [] | part ∷ parts ↦ (c ∷ part) ∷ parts ]

-- A text up to its first separator, and what stands behind.
unfoldable pub cut : ℕ → Text → Text × Text
cut sep [] = ([], [])
cut sep (c ∷ t) =
    let (before, after) = cut sep t in if c == sep then ([], t) else (c ∷ before, after)

-- Whether a character does not occur.
unfoldable pub lacks : ℕ → Text → Bool
lacks sep [] = true
lacks sep (c ∷ t) = not (c == sep) && lacks sep t

pub lacks-append :
    (sep : ℕ) (s t : Text) → lacks sep s ≡ true → lacks sep t ≡ true → lacks sep (s ++ t) ≡ true
unfolding lacks
lacks-append sep [] t h k = k
lacks-append sep (c ∷ s) t h k = ground (arith, lacks-append sep s t)

lacks-digits : (sep fuel n : ℕ) → (sep < 48) ⊎ (57 < sep) → lacks sep (digits fuel n) ≡ true
unfolding lacks digits
lacks-digits sep zero n h = refl
lacks-digits sep (suc fuel) n h = elim (Bool-cases (ltb n 10)) [
  | inl e ↦ rw (digits, e) (last_digit n (ltb→lt n 10 e))
  | inr e ↦
      rw (digits, e)
        (lacks-append sep (digits fuel (n / 10)) _ (lacks-digits sep fuel (n / 10) h)
          (last_digit (n % 10) (omega arith)))
]
  where
    last_digit : (k : ℕ) → k < 10 → lacks sep ((48 + k) ∷ []) ≡ true
    last_digit k l = elim h [ inl b ↦ ground (arith, b, l) | inr b ↦ ground (arith, b, l) ]

pub lacks-decimal : (sep n : ℕ) → (sep < 48) ⊎ (57 < sep) → lacks sep (decimal n) ≡ true
unfolding decimal
lacks-decimal sep n h = lacks-digits sep (n + 1) n h

pub split_on-append :
    (sep : ℕ) (s t : Text) → lacks sep s ≡ true → split_on sep (s ++ sep ∷ t) ≡ s ∷ split_on sep t
unfolding split_on lacks
split_on-append sep [] t h = rw (split_on, (==_iff sep sep).1 refl) refl
split_on-append sep (c ∷ s) t h = elim (Bool-cases (c == sep)) [
  | inl e ↦ absurd (ground (arith, h, e))
  | inr e ↦ rw (split_on, e, split_on-append sep s t (ground (arith, h, e))) refl
]

pub cut-append : (sep : ℕ) (s t : Text) → lacks sep s ≡ true → cut sep (s ++ sep ∷ t) ≡ (s, t)
unfolding cut lacks
cut-append sep [] t h = rw (cut, (==_iff sep sep).1 refl) refl
cut-append sep (c ∷ s) t h = elim (Bool-cases (c == sep)) [
  | inl e ↦ absurd (ground (arith, h, e))
  | inr e ↦ rw (cut, e, cut-append sep s t (ground (arith, h, e))) refl
]
