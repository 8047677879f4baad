-- ===== src/Health/Reports/Rows.antt =====
-- The objects that `HealthCheckResult::to_json` of src/log_health.cpp writes have the shape of JSON.
use zyrnix.Prelude.{
  lacks, lacks-decimal, ℕ, ◌≡◌, refl, sym, ap, ◌∙◌, Bool, true, false, List, [], ◌∷◌, ◌++◌,
  append_assoc, arith, Text, codes, decimal, All, inl, inr,
}
use zyrnix.Health.{healthy, degraded, unhealthy, HealthStatus}
use zyrnix.Health.Reports.{status_name, truth, row, in_quotes, comma_rows}
use zyrnix.Health.Reports.Shape.{
  Mode, outside, key_expected, in_string, scan, scan-append, is_plain, is_quiet, scan-plain,
  scan-quiet, step, after_comma, is_white,
}

-- A member of an object, the first or behind a comma.
pub record IsRow (r : Text) : Type 0 where
  pub first : (s : List Bool) → scan (true ∷ s, outside) r ≡ (true ∷ s, outside)
  pub later : (s : List Bool) → scan (true ∷ s, key_expected) r ≡ (true ∷ s, outside)

-- What can stand as the value of a member.
abbrev pub IsValue : Text → Type 0
IsValue v = (s : List Bool) → scan (s, outside) v ≡ (s, outside)

scan-row :
    (s : List Bool) (m : Mode) (indent name value : Text)
    → scan (s, m) (indent ++ 34 ∷ []) ≡ (s, in_string)
    → is_plain name ≡ true
    → IsValue value
    → scan (s, m) (row indent name value) ≡ (s, outside)
unfolding row scan step
scan-row s m indent name value e n v =
    ap (scan (s, m)) (sym (append_assoc indent (34 ∷ []) (name ++ (codes "\": " ++ value))))
    ∙ scan-append (s, m) (indent ++ 34 ∷ []) (name ++ (codes "\": " ++ value))
    ∙ ap (λ r. scan r (name ++ (codes "\": " ++ value))) e
    ∙ scan-append (s, in_string) name (codes "\": " ++ value)
    ∙ ap (λ r. scan r (codes "\": " ++ value)) (scan-plain s name n)
    ∙ v s

pub inner :
    (name value : Text)
    → is_plain name ≡ true
    → IsValue value
    → IsRow (row (codes "    ") name value)
unfolding scan step is_white
inner name value n v = record {
  first = λ s. scan-row (true ∷ s) outside (codes "    ") name value refl n v;
  later = λ s. scan-row (true ∷ s) key_expected (codes "    ") name value refl n v;
}

pub outer :
    (name value : Text) → is_plain name ≡ true → IsValue value → IsRow (row (codes "  ") name value)
unfolding scan step is_white
outer name value n v = record {
  first = λ s. scan-row (true ∷ s) outside (codes "  ") name value refl n v;
  later = λ s. scan-row (true ∷ s) key_expected (codes "  ") name value refl n v;
}

scan-last :
    (s : List Bool) (m : Mode) (r : Text)
    → scan (true ∷ s, m) r ≡ (true ∷ s, outside)
    → scan (true ∷ s, m) (r ++ codes "\n") ≡ (true ∷ s, outside)
unfolding scan step
scan-last s m r h = scan-append (true ∷ s, m) r (codes "\n") ∙ ap (λ q. scan q (codes "\n")) h

scan-more :
    (s : List Bool) (m : Mode) (r t : Text)
    → scan (true ∷ s, m) r ≡ (true ∷ s, outside)
    → scan (true ∷ s, key_expected) t ≡ (true ∷ s, outside)
    → scan (true ∷ s, m) (r ++ (codes ",\n" ++ t)) ≡ (true ∷ s, outside)
unfolding scan step after_comma is_white
scan-more s m r t h k =
    scan-append (true ∷ s, m) r (codes ",\n" ++ t) ∙ ap (λ q. scan q (codes ",\n" ++ t)) h ∙ k

pub scan-comma_rows :
    (r : Text) (rs : List Text) → IsRow r → All IsRow rs → IsRow (comma_rows (r ∷ rs))
unfolding comma_rows
scan-comma_rows r [] h hs = record {
  first = λ s. scan-last s outside r (h.first s);
  later = λ s. scan-last s key_expected r (h.later s);
}
scan-comma_rows r (t ∷ ts) h (k, ks) =
    let rest : IsRow (comma_rows (t ∷ ts)) = scan-comma_rows t ts k ks in
    record {
      first = λ s. scan-more s outside r (comma_rows (t ∷ ts)) (h.first s) (rest.later s);
      later = λ s. scan-more s key_expected r (comma_rows (t ∷ ts)) (h.later s) (rest.later s);
    }

-- Rows between braces.
pub scan-braces :
    (s : List Bool) (rows : Text) (close : Text)
    → IsRow rows
    → scan (true ∷ s, outside) close ≡ (s, outside)
    → scan (s, outside) (codes "{\n" ++ (rows ++ close)) ≡ (s, outside)
unfolding scan step
scan-braces s rows close h k =
    scan-append (true ∷ s, outside) rows close ∙ ap (λ q. scan q close) (h.first s) ∙ k

is_quiet-lacks :
    (t : Text)
    → lacks 34 t ≡ true
    → lacks 44 t ≡ true
    → lacks 123 t ≡ true
    → lacks 125 t ≡ true
    → lacks 91 t ≡ true
    → lacks 93 t ≡ true
    → is_quiet t ≡ true
unfolding is_quiet lacks
is_quiet-lacks [] a b c d e f = refl
is_quiet-lacks (x ∷ t) a b c d e f = ground (arith, is_quiet-lacks t, a, b, c, d, e, f)

pub IsValue-decimal : (n : ℕ) → IsValue (decimal n)
IsValue-decimal n s = scan-quiet s (decimal n) (
    is_quiet-lacks (decimal n) (lacks-decimal 34 n (inl (omega arith)))
      (lacks-decimal 44 n (inl (omega arith))) (lacks-decimal 123 n (inr (omega arith)))
      (lacks-decimal 125 n (inr (omega arith))) (lacks-decimal 91 n (inr (omega arith)))
      (lacks-decimal 93 n (inr (omega arith))))

pub IsValue-truth : (b : Bool) → IsValue (truth b)
unfolding truth scan step
IsValue-truth true s = refl
IsValue-truth false s = refl

pub IsValue-status : (x : HealthStatus) → IsValue (in_quotes (status_name x))
unfolding status_name in_quotes scan step
IsValue-status healthy s = refl
IsValue-status degraded s = refl
IsValue-status unhealthy s = refl
