-- ===== src/Json/Wide.antt =====
-- Bytes above 127, which the sink takes for negative characters.
use zyrnix.Prelude.{
  ℕ, ◌/◌, ◌%◌, ◌<◌, ◌≤◌, ◌≡◌, ◌≢◌, sym, ap, ◌∙◌, Option, none, some, [], ◌∷◌, ◌++◌, append_assoc,
  arith, Text,
}
use zyrnix.Json.{hex_digit, unicode, escape_char, escape_json_string}
use zyrnix.Json.Reader.{plain, digit_value, prepend, string_body}
use zyrnix.Json.RoundTrip.{IsAscii, escape_char-IsRead}

unicode_wide :
    (c : ℕ) (text : Text)
    → 128 ≤ c
    → string_body plain (unicode c ++ text)
      ≡ prepend 65535
          (string_body plain (102 ∷ 102 ∷ hex_digit (c / 16) ∷ hex_digit (c % 16) ∷ text))
unfolding string_body unicode digit_value
unicode_wide c text h = ground arith

escape_char_wide : (c : ℕ) → 128 ≤ c → escape_char c ≡ unicode c
unfolding escape_char
escape_char_wide c h = ground arith

-- What begins with 65535 is not what was written.
prepend_wide :
    (c : ℕ) (s rest : Text) (o : Option (Text × Text))
    → c < 256
    → prepend 65535 o ≢ some (c ∷ s, rest)
unfolding prepend
prepend_wide c s rest none h e = ground (arith, e)
prepend_wide c s rest (some (t, end)) h e = ground (arith, e)

prepend_cancel :
    (c : ℕ) (s rest : Text) (o : Option (Text × Text))
    → prepend c o ≡ some (c ∷ s, rest)
    → o ≡ some (s, rest)
unfolding prepend
prepend_cancel c s rest none e = ground (arith, e)
prepend_cancel c s rest (some (t, end)) e = ground (arith, e)

-- A text that holds a byte above 127 does not read back from the sink's escapes: such a byte is
-- written as `\uffff` and the last digits of a negative number.
pub escape-wide :
    (p s rest : Text) (c : ℕ)
    → IsAscii p
    → 128 ≤ c
    → c < 256
    → string_body plain (escape_json_string (p ++ c ∷ s) ++ 34 ∷ rest) ≢ some (p ++ c ∷ s, rest)
unfolding escape_json_string
escape-wide [] s rest c a h k e = prepend_wide c s rest _ k (
    sym (unicode_wide c (escape_json_string s ++ 34 ∷ rest) h)
    ∙ ap (λ x. string_body plain (x ++ (escape_json_string s ++ 34 ∷ rest)))
        (sym (escape_char_wide c h))
    ∙ ap (string_body plain) (sym (append_assoc (escape_char c) (escape_json_string s) (34 ∷ rest)))
    ∙ e)
escape-wide (b ∷ p) s rest c a h k e = escape-wide p s rest c a.1 h k (
    prepend_cancel b (p ++ c ∷ s) rest _ (
      sym (escape_char-IsRead b (escape_json_string (p ++ c ∷ s) ++ 34 ∷ rest) a.0)
      ∙ ap (string_body plain)
          (sym (append_assoc (escape_char b) (escape_json_string (p ++ c ∷ s)) (34 ∷ rest)))
      ∙ e))
