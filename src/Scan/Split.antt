-- ===== src/Scan/Split.antt =====
-- Lists of patterns with commas between them.
use zyrnix.Prelude.{◌<◌, ◌≡◌, Bool, true, false, not, List, [], ◌∷◌, ◌++◌, ◌==◌, Text, length, all}
use zyrnix.Scan.{is_blank}

unfoldable pub starts_blank : Text → Bool
starts_blank [] = false
starts_blank (c ∷ cs) = is_blank c

unfoldable pub ends_blank : Text → Bool
ends_blank [] = false
ends_blank (c ∷ cs) = let rest = ends_blank cs in elim cs [ [] ↦ is_blank c | d ∷ ds ↦ rest ]

-- A pattern that stands for itself in a list: not empty, no comma, no blank at an end.
pub record IsPiece (t : Text) : Type 0 where
  pub filled : 0 < length t
  pub plain : all (λ c. not (c == b',')) t ≡ true
  pub left : starts_blank t ≡ false
  pub right : ends_blank t ≡ false

-- The patterns with a comma and a space between them.
unfoldable pub join : List Text → Text
join [] = []
join (t ∷ ts) = let rest = join ts in elim ts [ [] ↦ t | u ∷ us ↦ t ++ (b',' ∷ b' ' ∷ rest) ]
