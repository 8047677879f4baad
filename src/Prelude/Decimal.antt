-- ===== src/Prelude/Decimal.antt =====
-- `std::to_string` of an unsigned number.
use Prim.Native.Nat.{ℕ, zero, suc, ◌+◌, ◌-◌, ◌*◌, ◌/◌, ◌%◌, ◌<◌}
use mathlib.Core.Path.{◌≡◌, refl, ap, sym, ◌∙◌}
use mathlib.Core.List.{[], ◌∷◌, ◌++◌}
use native.Mathlib.Omega.{arith}
use zyrnix.Prelude.Tests.{ltb, if◌then◌else◌}
use zyrnix.Prelude.Texts.{Text}

-- The digits, with fuel for each of them.
unfoldable pub digits : ℕ → ℕ → Text
digits zero n = []
digits (suc fuel) n =
    let front = digits fuel (n / 10) in
    if ltb n 10 then (48 + n) ∷ [] else front ++ (48 + n % 10) ∷ []

unfoldable pub decimal : ℕ → Text
unfolding digits
decimal n = digits (n + 1) n

-- The number that digits spell, read from the left.
unfoldable pub spelled : ℕ → Text → ℕ
spelled acc [] = acc
spelled acc (d ∷ ds) = spelled (acc * 10 + (d - 48)) ds

spelled-append :
    (acc : ℕ) (xs : Text) (d : ℕ) → spelled acc (xs ++ d ∷ []) ≡ spelled acc xs * 10 + (d - 48)
unfolding spelled
spelled-append acc [] d = refl
spelled-append acc (x ∷ xs) d = spelled-append (acc * 10 + (x - 48)) xs d

spelled-digits : (fuel n : ℕ) → n < fuel → spelled 0 (digits fuel n) ≡ n
unfolding digits spelled
spelled-digits zero n h = elim h [ ]
spelled-digits (suc fuel) n h =
    ground
      (arith, spelled-append 0 (digits fuel (n / 10)) (48 + n % 10), spelled-digits fuel (n / 10))

-- Decimal numerals read back.
pub spelled-decimal : (n : ℕ) → spelled 0 (decimal n) ≡ n
unfolding decimal
spelled-decimal n = spelled-digits (n + 1) n (omega arith)

pub decimal_injective : (m n : ℕ) → decimal m ≡ decimal n → m ≡ n
decimal_injective m n h = sym (spelled-decimal m) ∙ ap (spelled 0) h ∙ spelled-decimal n
