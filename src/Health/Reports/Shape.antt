-- ===== src/Health/Reports/Shape.antt =====
-- The shape of JSON, as far as it shows in one pass: which objects and arrays are open, and what
-- follows a comma. The objects that `HealthCheckResult::to_json` of src/log_health.cpp writes have it.
use zyrnix.Prelude.{
  ℕ, ◌≡◌, refl, ap, ◌∙◌, Bool, true, false, not, ◌&&◌, ◌||◌, List, [], ◌∷◌, ◌++◌, if◌then◌else◌,
  ◌==◌, arith, Text,
}
use zyrnix.Health.Reports.{in_quotes}

-- Between tokens, after a comma in an object, in a string, behind a backslash, or beyond repair.
pub data Mode : Type 0 where
  outside key_expected in_string escaped broken : Mode

-- What is open, the innermost first, an object as `true`.
abbrev pub Scan : Type 0
Scan = List Bool × Mode

unfoldable pub after_comma : List Bool → Mode
after_comma [] = outside
after_comma (b ∷ bs) = if b then key_expected else outside

unfoldable pub pop : List Bool → List Bool
pop [] = []
pop (b ∷ bs) = bs

unfoldable pub is_white : ℕ → Bool
is_white c = c == 32 || c == 10 || c == 9 || c == 13

unfoldable pub step : Scan → ℕ → Scan
step (open_ones, broken) c = (open_ones, broken)
step (open_ones, escaped) c = (open_ones, in_string)
step (open_ones, in_string) c =
    if c == 34
    then (open_ones, outside)
    else if c == 92
    then (open_ones, escaped)
    else (open_ones, in_string)
step (open_ones, key_expected) c =
    if c == 34
    then (open_ones, in_string)
    else if is_white c
    then (open_ones, key_expected)
    else (open_ones, broken)
step (open_ones, outside) c =
    if c == 34
    then (open_ones, in_string)
    else if c == 123
    then (true ∷ open_ones, outside)
    else if c == 91
    then (false ∷ open_ones, outside)
    else if c == 125 || c == 93
    then (pop open_ones, outside)
    else if c == 44
    then (open_ones, after_comma open_ones)
    else (open_ones, outside)

unfoldable pub scan : Scan → Text → Scan
scan s [] = s
scan s (c ∷ t) = scan (step s c) t

pub scan-append : (s : Scan) (t u : Text) → scan s (t ++ u) ≡ scan (scan s t) u
unfolding scan
scan-append s [] u = refl
scan-append s (c ∷ t) u = scan-append (step s c) t u

-- Neither a quote nor a backslash.
unfoldable pub is_plain : Text → Bool
is_plain [] = true
is_plain (c ∷ t) = not (c == 34) && not (c == 92) && is_plain t

-- Neither a quote, nor a comma, nor a brace, nor a bracket.
unfoldable pub is_quiet : Text → Bool
is_quiet [] = true
is_quiet (c ∷ t) =
    not (c == 34 || c == 44 || c == 123 || c == 125 || c == 91 || c == 93) && is_quiet t

pub scan-plain :
    (s : List Bool) (t : Text) → is_plain t ≡ true → scan (s, in_string) t ≡ (s, in_string)
unfolding scan step is_plain
scan-plain s [] h = refl
scan-plain s (c ∷ t) h = ground (arith, scan-plain s t, h)

pub scan-quiet : (s : List Bool) (t : Text) → is_quiet t ≡ true → scan (s, outside) t ≡ (s, outside)
unfolding scan step is_quiet
scan-quiet s [] h = refl
scan-quiet s (c ∷ t) h = ground (arith, scan-quiet s t, h)

pub scan-broken : (s : List Bool) (t : Text) → scan (s, broken) t ≡ (s, broken)
unfolding scan step
scan-broken s [] = refl
scan-broken s (c ∷ t) = scan-broken s t

pub scan-in_quotes :
    (s : List Bool) (t : Text) → is_plain t ≡ true → scan (s, outside) (in_quotes t) ≡ (s, outside)
unfolding in_quotes scan step
scan-in_quotes s t h =
    scan-append (s, in_string) t (34 ∷ []) ∙ ap (λ r. scan r (34 ∷ [])) (scan-plain s t h)
