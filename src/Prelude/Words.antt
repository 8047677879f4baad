-- ===== src/Prelude/Words.antt =====
-- Unsigned 64-bit arithmetic, the `size_t` and `uint64_t` of the source.
use Prim.Native.Nat.{ℕ, ◌+◌, ◌-◌, ◌%◌, ◌^◌}

abbrev pub word_mod : ℕ
word_mod = 2 ^ 64

abbrev pub add_word : ℕ → ℕ → ℕ
add_word a b = (a + b) % word_mod

-- For operands below the modulus: the difference wraps.
abbrev pub sub_word : ℕ → ℕ → ℕ
sub_word a b = (a + word_mod - b) % word_mod
