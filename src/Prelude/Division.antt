-- ===== src/Prelude/Division.antt =====
-- Quotients by a number that is not a numeral.
use Prim.Native.Nat.{ℕ, ◌+◌, ◌*◌, ◌/◌, ◌≤◌, ◌<◌}
use mathlib.Core.Path.{◌≡◌}
use native.Mathlib.Nat.{le-div_iff_mul-le, div-lt_iff_lt-mul}
use native.Mathlib.Omega.{arith}

-- A quotient is found from the multiples on its two sides.
pub div_unique : (a r q : ℕ) → 0 < r → q * r ≤ a → a < (q + 1) * r → a / r ≡ q
div_unique a r q h lo hi =
    let up : q ≤ a / r = (le-div_iff_mul-le h).1 lo in
    let down : a / r < q + 1 = (div-lt_iff_lt-mul h).1 hi in omega (arith, up, down)
