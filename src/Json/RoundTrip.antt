-- ===== src/Json/RoundTrip.antt =====
-- What the reader makes of the lines that the sink writes.
use zyrnix.Prelude.{
  ℕ, suc, ◌+◌, ◌*◌, ◌/◌, ◌%◌, ◌<◌, ◌≡◌, inl, inr, refl, sym, ap, ◌∙◌, false, ◌||◌, some, List, [],
  ◌∷◌, ◌++◌, append_assoc, if◌then◌else◌, ltb, lt→ltb, leb, ◌==◌, ==_iff, subst, arith, Bool-cases,
  Text, codes, All, length,
}
use zyrnix.Level.{LogLevel, to_string, trace, debug, info, warn, error, critical}
use zyrnix.Json.{hex_digit, unicode, escape_char, escape_json_string, json_members, build_json}
use zyrnix.Json.Reader.{
  plain, hex, escaped, digit_value, prepend, string_body, expect, string, member, members, object,
}

abbrev pub IsAscii : Text → Type 0
IsAscii = All (λ c. c < 128)

digit_value-hex_digit : (n : ℕ) → n < 16 → digit_value (hex_digit n) ≡ some n
unfolding digit_value hex_digit
digit_value-hex_digit n h = ground arith

hex_more :
    (n acc c d : ℕ) (text : Text)
    → digit_value c ≡ some d
    → string_body (hex (suc (suc n)) acc) (c ∷ text) ≡ string_body (hex (suc n) (acc * 16 + d)) text
unfolding string_body
hex_more n acc c d text h = rw (string_body, h) refl

hex_last :
    (acc c d : ℕ) (text : Text)
    → digit_value c ≡ some d
    → string_body (hex 1 acc) (c ∷ text) ≡ prepend (acc * 16 + d) (string_body plain text)
unfolding string_body
hex_last acc c d text h = rw (string_body, h) refl

-- The four digits of a character below 256.
hex_digits :
    (n : ℕ) (text : Text)
    → n < 256
    → string_body (hex 2 0) (hex_digit (n / 16) ∷ hex_digit (n % 16) ∷ text)
      ≡ prepend n (string_body plain text)
hex_digits n text h =
    hex_more 0 0 (hex_digit (n / 16)) (n / 16) (hex_digit (n % 16) ∷ text)
      (digit_value-hex_digit (n / 16) (omega arith))
    ∙ hex_last (0 * 16 + n / 16) (hex_digit (n % 16)) (n % 16) text
        (digit_value-hex_digit (n % 16) (omega arith))
    ∙ ap (λ k. prepend k (string_body plain text)) (parts n)
  where
    parts : (k : ℕ) → (0 * 16 + k / 16) * 16 + k % 16 ≡ k
    parts k = omega arith

-- Two zeros in front of the digits change nothing.
zeros : (text : Text) → string_body plain (codes "\\u00" ++ text) ≡ string_body (hex 2 0) text
unfolding hex_digit string_body
zeros text =
    hex_more 2 0 48 0 (48 ∷ text) (digit_value-hex_digit 0 (omega arith))
    ∙ hex_more 1 0 48 0 text (digit_value-hex_digit 0 (omega arith))

unicode_ascii :
    (c : ℕ) → c < 128 → unicode c ≡ codes "\\u00" ++ hex_digit (c / 16) ∷ hex_digit (c % 16) ∷ []
unfolding unicode
unicode_ascii c h = rw (lt→ltb c 128 h) refl

control-read :
    (c : ℕ) (text : Text)
    → c < 128
    → string_body plain (unicode c ++ text) ≡ prepend c (string_body plain text)
control-read c text h =
    rw (unicode_ascii c h)
      (zeros (hex_digit (c / 16) ∷ hex_digit (c % 16) ∷ text) ∙ hex_digits c text (omega arith))

itself :
    (c : ℕ) (text : Text)
    → (c == 34) ≡ false
    → (c == 92) ≡ false
    → ltb c 32 ≡ false
    → string_body plain (c ∷ text) ≡ prepend c (string_body plain text)
unfolding string_body
itself c text e f g = ground (arith, e, f, g)

-- What the reader does with one escaped character.
abbrev IsRead : Text → ℕ → Text → Type 0
IsRead text c bytes = string_body plain (bytes ++ text) ≡ prepend c (string_body plain text)

-- A test for one character, with what is written for it and for the others.
branch :
    (text : Text) (c k : ℕ) (x y : Text)
    → IsRead text k x
    → ((c == k) ≡ false → IsRead text c y)
    → IsRead text c (if c == k then x else y)
branch text c k x y h other = elim (Bool-cases (c == k)) [
  | inl e ↦ rw e (subst (λ d. IsRead text d x) (sym ((==_iff c k).0 e)) h)
  | inr e ↦ rw e (other e)
]

rest-IsRead :
    (text : Text) (c : ℕ)
    → c < 128
    → (c == 34) ≡ false
    → (c == 92) ≡ false
    → IsRead text c (if ltb c 32 || leb 128 c then unicode c else c ∷ [])
rest-IsRead text c h e f = elim (Bool-cases (ltb c 32 || leb 128 c)) [
  | inl g ↦ rw g (control-read c text h)
  | inr g ↦ rw g (itself c text e f (ground (arith, g)))
]

pub escape_char-IsRead : (c : ℕ) (text : Text) → c < 128 → IsRead text c (escape_char c)
unfolding escape_char string_body escaped
escape_char-IsRead c text h = branch text c 34 _ _ refl (λ e. branch text c 92 _ _ refl (λ f.
    branch text c 8 _ _ refl (λ _. branch text c 12 _ _ refl (λ _. branch text c 10 _ _ refl (λ _.
      branch text c 13 _ _ refl (λ _. branch text c 9 _ _ refl (λ _. rest-IsRead text c h e f)))))))

-- Everything up to the closing quote reads back.
string_body-escape :
    (s rest : Text)
    → IsAscii s
    → string_body plain (escape_json_string s ++ 34 ∷ rest) ≡ some (s, rest)
unfolding escape_json_string string_body prepend
string_body-escape [] rest h = refl
string_body-escape (c ∷ s) rest h =
    rw (append_assoc (escape_char c) (escape_json_string s) (34 ∷ rest)) (
      escape_char-IsRead c (escape_json_string s ++ 34 ∷ rest) h.0
      ∙ ap (prepend c) (string_body-escape s rest h.1))

-- A member as the sink writes it, with what follows.
abbrev member_text : Text × Text → Text → Text
member_text (k, v) rest =
    34 ∷ escape_json_string k ++ (34 ∷ 58 ∷ 34 ∷ escape_json_string v ++ (34 ∷ rest))

abbrev pub IsAsciiMember : Text × Text → Type 0
IsAsciiMember (k, v) = IsAscii k × IsAscii v

member-member_text :
    (m : Text × Text) (rest : Text) → IsAsciiMember m → member (member_text m rest) ≡ some (m, rest)
unfolding member string expect
member-member_text (k, v) rest h =
    rw (member, string, string_body-escape k (58 ∷ 34 ∷ escape_json_string v ++ (34 ∷ rest)) h.0)
      (rw (string, string_body-escape v rest h.1) refl)

members_alike :
    (m : Text × Text) (ms : List (Text × Text))
    → All IsAsciiMember (m ∷ ms)
    → members (suc (length ms)) (member_text m (json_members ms (125 ∷ []))) ≡ some (m ∷ ms)
unfolding members expect json_members
members_alike m [] h = rw (members, member-member_text m (125 ∷ []) h.0) refl
members_alike m (n ∷ ms) h =
    rw (members, member-member_text m (44 ∷ member_text n (json_members ms (125 ∷ []))) h.0)
      (rw (members_alike n ms h.1) refl)

json_members-append :
    (xs ys : List (Text × Text)) (rest : Text)
    → json_members xs (json_members ys rest) ≡ json_members (xs ++ ys) rest
unfolding json_members
json_members-append [] ys rest = refl
json_members-append ((k, v) ∷ xs) ys rest = rw (json_members-append xs ys rest) refl

-- A text that needs no escape, as the time and the names of the levels.
abbrev pub IsClean : Text → Type 0
IsClean t = IsAscii t × (escape_json_string t ≡ t)

to_string-IsClean : (level : LogLevel) → IsClean (to_string level)
unfolding to_string escape_json_string escape_char
to_string-IsClean trace = (ground arith, refl)
to_string-IsClean debug = (ground arith, refl)
to_string-IsClean info = (ground arith, refl)
to_string-IsClean warn = (ground arith, refl)
to_string-IsClean error = (ground arith, refl)
to_string-IsClean critical = (ground arith, refl)

-- The members of a line, in its order.
abbrev pub line_members :
    List (Text × Text)
    → List (Text × Text)
    → Text
    → Text
    → LogLevel
    → Text
    → List (Text × Text)
    → List (Text × Text)
line_members global thread timestamp name level message fields =
    (codes "timestamp", timestamp)
    ∷ (codes "level", to_string level)
    ∷ (codes "logger", name)
    ∷ (codes "message", message)
    ∷ (global ++ (thread ++ fields))

-- The line as a list of members.
build_json_text :
    (global thread fields : List (Text × Text)) (timestamp name : Text) (level : LogLevel)
    (message : Text)
    → IsClean timestamp
    → build_json global thread timestamp name level message fields
      ≡ 123
        ∷ member_text
            (codes "timestamp", timestamp)
            (json_members
              ((codes "level", to_string level)
                ∷ (codes "logger", name)
                ∷ (codes "message", message)
                ∷ (global ++ (thread ++ fields)))
              (125 ∷ []))
unfolding build_json json_members escape_json_string escape_char
build_json_text global thread fields timestamp name level message t =
    rw
      (
        ← (json_members-append global (thread ++ fields) (125 ∷ [])),
        ← (json_members-append thread fields (125 ∷ [])),
        t.1,
        (to_string-IsClean level).1,
      )
      refl

-- A line that the sink writes is one JSON object, and reads back as its members: the time, the
-- level, the logger and the message, then the sink's context, the thread's context and the fields,
-- whatever quotes, backslashes and control characters they hold. All texts are ASCII, and the time
-- needs no escape.
pub build_json-read :
    (global thread fields : List (Text × Text)) (timestamp name : Text) (level : LogLevel)
    (message : Text)
    → IsClean timestamp
    → IsAscii name
    → IsAscii message
    → All IsAsciiMember (global ++ (thread ++ fields))
    → object
        (length (line_members global thread timestamp name level message fields))
        (build_json global thread timestamp name level message fields)
      ≡ some (line_members global thread timestamp name level message fields)
unfolding object expect
build_json-read global thread fields timestamp name level message t n m h =
    rw (build_json_text global thread fields timestamp name level message t) (
      members_alike (codes "timestamp", timestamp)
        ((codes "level", to_string level)
          ∷ (codes "logger", name)
          ∷ (codes "message", message)
          ∷ (global ++ (thread ++ fields)))
        (
          (ground arith, t.0),
          (
            (ground arith, (to_string-IsClean level).0),
            ((ground arith, n), ((ground arith, m), h)),
          ),
        ))
