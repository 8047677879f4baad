-- ===== src/SignalSafe/Helpers.antt =====
-- The helpers `safe_memcpy` and `int_to_str` of src/sinks/signal_safe_sink.cpp. An `int` has 32 bits;
-- `none` is the overflow of `-value`, which the language leaves undefined.
use zyrnix.Prelude.{
  ℕ, zero, suc, ◌+◌, ◌*◌, ◌/◌, ◌%◌, ◌<◌, ◌≤◌, ◌≡◌, refl, sym, ap, ◌∙◌, Bool, true, false, ◌&&◌,
  Option, none, some, [], ◌∷◌, ◌++◌, append_assoc, append-nil, ◌⊎◌, length-append, if◌then◌else◌,
  ltb, ◌==◌, arith, Text, decimal, digits, length, take, set, get_or, min, length-take, Bool-cases,
  inl, inr,
}

-- `dest[i] = src[i]` for each of `len` positions from `i` on.
unfoldable pub safe_memcpy : Text → Text → ℕ → ℕ → Text
safe_memcpy dest src i zero = dest
safe_memcpy dest src i (suc left) = safe_memcpy (set dest i (get_or src i 0)) src (suc i) left

pub data ℤ : Type 0 where
  pos : ℕ → ℤ
  negsuc : ℕ → ℤ

abbrev pub IsInt : ℤ → Type 0
IsInt (pos n) = n < 2147483648
IsInt (negsuc n) = n < 2147483648

-- The loop that takes digits off, with the latest at the front; the fuel is the room in `temp`.
unfoldable pub temp_digits : ℕ → ℕ → Text → Text
temp_digits zero value temp = temp
temp_digits (suc room) value temp =
    let more = temp_digits room (value / 10) ((48 + value % 10) ∷ temp) in
    if ltb 0 (value / 10) then more else (48 + value % 10) ∷ temp

-- The loop that copies while there is room.
unfoldable pub copy_out : ℕ → Text → Text
copy_out zero temp = []
copy_out (suc room) [] = []
copy_out (suc room) (c ∷ temp) = c ∷ copy_out room temp

abbrev pub temp_size : ℕ
temp_size = 32

unfoldable pub with_sign : Bool → Text → Text
with_sign negative temp = if negative && ltb (length temp) temp_size then 45 ∷ temp else temp

unfoldable pub digits_of : ℤ → Option (Bool × ℕ)
digits_of (pos n) = some (false, n)
digits_of (negsuc n) = if suc n == 2147483648 then none else some (true, suc n)

-- What stands in the buffer, the closing zero included, and the result.
unfoldable pub int_to_str : ℤ → ℕ → Option (Text × ℕ)
int_to_str value zero = some ([], 0)
int_to_str value (suc room) = elim (digits_of value) [
  | none ↦ none
  | some p ↦
      let out = copy_out room (with_sign p.0 (temp_digits temp_size p.1 [])) in
      some (out ++ 0 ∷ [], length out)
]

copy_out-take : (room : ℕ) (temp : Text) → copy_out room temp ≡ take room temp
unfolding copy_out
copy_out-take zero temp = refl
copy_out-take (suc room) [] = refl
copy_out-take (suc room) (c ∷ temp) = ap (λ t. c ∷ t) (copy_out-take room temp)

-- Ten to the power of one more.
abbrev power : ℕ → ℕ
power zero = 10
power (suc k) = 10 * power k

take_more :
    (room value : ℕ) (temp : Text)
    → ltb value 10 ≡ false
    → temp_digits (suc room) value temp ≡ temp_digits room (value / 10) ((48 + value % 10) ∷ temp)
unfolding temp_digits
take_more room value temp e = rw (positive value e) refl
  where
    positive : (n : ℕ) → ltb n 10 ≡ false → ltb 0 (n / 10) ≡ true
    positive n k = ground (arith, k)

digits_more :
    (fuel value : ℕ)
    → ltb value 10 ≡ false
    → digits (suc fuel) value ≡ digits fuel (value / 10) ++ (48 + value % 10) ∷ []
unfolding digits
digits_more fuel value e = rw (digits, e) refl

temp_digits-digits :
    (room fuel value : ℕ) (temp : Text)
    → value < power room
    → value < fuel
    → temp_digits (suc room) value temp ≡ digits fuel value ++ temp
unfolding temp_digits digits
temp_digits-digits room zero value temp h k = absurd (omega (arith, k))
temp_digits-digits zero (suc fuel) value temp h k = ground (arith, h)
temp_digits-digits (suc room) (suc fuel) value temp h k = elim (Bool-cases (ltb value 10)) [
  | inl e ↦ ground (arith, e)
  | inr e ↦
      take_more (suc room) value temp e
      ∙ temp_digits-digits room fuel (value / 10) ((48 + value % 10) ∷ temp) (omega (arith, h))
          (ground (arith, e, k))
      ∙ sym (append_assoc (digits fuel (value / 10)) ((48 + value % 10) ∷ []) temp)
      ∙ ap (λ t. t ++ temp) (sym (digits_more fuel value e))
]

-- The number as it is written.
unfoldable pub written : ℤ → Text
written (pos n) = decimal n
written (negsuc n) = 45 ∷ decimal (suc n)

length-digits :
    (room fuel value : ℕ)
    → value < power room
    → value < fuel
    → length (digits fuel value) ≤ suc room
unfolding digits
length-digits room zero value h k = absurd (omega (arith, k))
length-digits zero (suc fuel) value h k = ground (arith, h)
length-digits (suc room) (suc fuel) value h k = elim (Bool-cases (ltb value 10)) [
  | inl e ↦ rw (digits, e) (omega arith)
  | inr e ↦ rw (digits_more fuel value e) (
      omega (
        arith,
        length-append (digits fuel (value / 10)) ((48 + value % 10) ∷ []),
        length-digits room fuel (value / 10) (omega (arith, h)) (ground (arith, e, k)),
      ))
]

taken_digits : (n : ℕ) → n ≤ 2147483648 → temp_digits temp_size n [] ≡ decimal n
unfolding decimal
taken_digits n h =
    temp_digits-digits 31 (n + 1) n [] (omega (arith, h)) (omega arith) ∙ append-nil (decimal n)

length-decimal : (n : ℕ) → n ≤ 2147483648 → length (decimal n) ≤ 10
unfolding decimal
length-decimal n h = length-digits 9 (n + 1) n (omega (arith, h)) (omega arith)

-- What is copied of a text with the sign before it.
signed :
    (room : ℕ) (negative : Bool) (n : ℕ)
    → n ≤ 2147483648
    → copy_out room (with_sign negative (temp_digits temp_size n []))
      ≡ take room (if negative then 45 ∷ decimal n else decimal n)
unfolding with_sign
signed room negative n h =
    copy_out-take room (with_sign negative (temp_digits temp_size n []))
    ∙ ap (λ t. take room (with_sign negative t)) (taken_digits n h)
    ∙ ap (take room) (shown negative)
  where
    shown : (b : Bool) → with_sign b (decimal n) ≡ (if b then 45 ∷ decimal n else decimal n)
    shown true = ground (arith, length-decimal n h)
    shown false = refl

-- A text behind a closing zero, and its length.
abbrev closed : Text → ℕ → Option (Text × ℕ)
closed t n = some (t ++ 0 ∷ [], n)

stored :
    (room : ℕ) (t u : Text)
    → t ≡ take room u
    → closed t (length t) ≡ closed (take room u) (min room (length u))
stored room t u e = ap (λ w. closed w (length w)) e ∙ ap (closed (take room u)) (length-take room u)

-- For an `int` of 32 bits and whatever room there is before the closing zero, the buffer holds what
-- fits in it of the number as it is written, from its first character, and the result is how many
-- characters that is; only the least `int` is undefined.
pub int_to_str_lem :
    (value : ℤ) (room : ℕ)
    → IsInt value
    → ((value ≡ negsuc 2147483647) × (int_to_str value (suc room) ≡ none))
      ⊎ (int_to_str value (suc room)
          ≡ some (take room (written value) ++ 0 ∷ [], min room (length (written value))))
unfolding int_to_str digits_of written
int_to_str_lem (pos n) room h = inr (stored room _ _ (signed room false n (omega (arith, h))))
int_to_str_lem (negsuc n) room h = elim (Bool-cases (suc n == 2147483648)) [
  | inl e ↦ inl (ap negsuc (least n e), rw (int_to_str, digits_of, e) refl)
  | inr e ↦ inr (
      rw (int_to_str, digits_of, e) (stored room _ _ (signed room true (suc n) (omega (arith, h)))))
]
  where
    least : (k : ℕ) → (suc k == 2147483648) ≡ true → k ≡ 2147483647
    least k q = ground (arith, q)
