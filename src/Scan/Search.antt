-- ===== src/Scan/Search.antt =====
-- Where `find` finds a single byte, and what a part of a text cannot hold.
use zyrnix.Prelude.{
  ℕ, zero, suc, ◌+◌, ◌-◌, ◌<◌, ◌≤◌, ◌≡◌, refl, Bool, true, false, Option, none, some, [], ◌∷◌, ◌++◌,
  if◌then◌else◌, ◌==◌, arith, Text, length, take, drop, get_elem?, sym, ap, ◌∙◌,
}
use zyrnix.Redact.{is_prefix, shift, find, find_from}

unfoldable pub holds : ℕ → Text → Bool
holds c [] = false
holds c (d ∷ ds) = let rest = holds c ds in if c == d then true else rest

holds-take : (c n : ℕ) (t : Text) → holds c t ≡ false → holds c (take n t) ≡ false
unfolding holds
holds-take c zero t h = refl
holds-take c (suc n) [] h = h
holds-take c (suc n) (d ∷ ds) h = ground (arith, holds-take c n ds)

holds-drop : (c n : ℕ) (t : Text) → holds c t ≡ false → holds c (drop n t) ≡ false
unfolding holds
holds-drop c zero t h = h
holds-drop c (suc n) [] h = h
holds-drop c (suc n) (d ∷ ds) h = holds-drop c n ds (ground arith)

-- A byte that the text does not hold is not found.
pub find-holds_not : (c : ℕ) (t : Text) → holds c t ≡ false → find (c ∷ []) t ≡ none
unfolding holds find is_prefix shift
find-holds_not c [] h = refl
find-holds_not c (d ∷ ds) h = ground (arith, find-holds_not c ds)

-- A byte is found at its first place.
pub find-first :
    (c i : ℕ) (t : Text)
    → find (c ∷ []) t ≡ some i
    → (i < length t) × (get_elem? t i ≡ some c) × (holds c (take i t) ≡ false)
unfolding holds find is_prefix shift
find-first c i [] h = ground arith
find-first c zero (d ∷ ds) h = ground arith
find-first c (suc i) (d ∷ ds) h = ground (arith, find-first c i ds)

pub find_from-holds_not :
    (c pos : ℕ) (t : Text) → holds c t ≡ false → find_from (c ∷ []) t pos ≡ none
unfolding find_from shift
find_from-holds_not c pos t h = ground (arith, find-holds_not c (drop pos t) (holds-drop c pos t h))

get_elem?-drop : (m k : ℕ) (t : Text) → get_elem? (drop m t) k ≡ get_elem? t (m + k)
get_elem?-drop zero k t = ap (get_elem? t) (omega arith)
get_elem?-drop (suc m) k [] = refl
get_elem?-drop (suc m) k (d ∷ ds) =
    get_elem?-drop m k ds
    ∙ (let e : suc (m + k) ≡ suc m + k = omega arith in ap (get_elem? (d ∷ ds)) e)

shift-some : (n j : ℕ) (o : Option ℕ) → shift n o ≡ some j → (i : ℕ) × (j ≡ n + i) × (o ≡ some i)
unfolding shift
shift-some n j none h = absurd (ground arith)
shift-some n j (some i) h = (i, ground arith, refl)

find_from-shift :
    (p t : Text) (pos j : ℕ) → find_from p t pos ≡ some j → shift pos (find p (drop pos t)) ≡ some j
unfolding find_from
find_from-shift p t pos j h = ground arith

pub find_from-first :
    (c pos j : ℕ) (t : Text)
    → find_from (c ∷ []) t pos ≡ some j
    → (i : ℕ) × (j ≡ pos + i) × (get_elem? t j ≡ some c) × (find (c ∷ []) (drop pos t) ≡ some i)
find_from-first c pos j t h =
    let (i, e, s) = shift-some pos j _ (find_from-shift (c ∷ []) t pos j h) in
    (i, e, rw e (sym (get_elem?-drop pos i t) ∙ (find-first c i (drop pos t) s).1), s)

-- The text up to a byte that is found, with that byte.
pub take-found :
    (c i : ℕ) (t : Text) → find (c ∷ []) t ≡ some i → take (suc i) t ≡ take i t ++ c ∷ []
unfolding find is_prefix shift
take-found c i [] h = absurd (ground arith)
take-found c zero (d ∷ ds) h = ground arith
take-found c (suc i) (d ∷ ds) h = ap (λ r. d ∷ r) (take-found c i ds (ground arith))

-- Another byte than the last stands before it.
pub before_last :
    (c d k : ℕ) (u : Text) → get_elem? (u ++ c ∷ []) k ≡ some d → (c == d) ≡ false → k < length u
before_last c d zero [] h n = absurd (ground arith)
before_last c d (suc k) [] h n = absurd (ground arith)
before_last c d zero (e ∷ u) h n = omega arith
before_last c d (suc k) (e ∷ u) h n = omega (arith, before_last c d k u h n)

-- A part of the text before the last byte does not hold what is not before it.
pub holds-part :
    (c n m : ℕ) (u v : Text)
    → holds c u ≡ false
    → n ≤ length u - m
    → holds c (take n (drop m (u ++ v))) ≡ false
unfolding holds
holds-part c zero m u v h l = refl
holds-part c (suc n) m [] v h l = absurd (omega arith)
holds-part c (suc n) zero (d ∷ u) v h l = ground (arith, holds-part c n zero u v)
holds-part c (suc n) (suc m) (d ∷ u) v h l = holds-part c (suc n) m u v (ground arith) (omega arith)
