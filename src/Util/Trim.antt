-- ===== src/Util/Trim.antt =====
-- `trim` of src/util.cpp against its description: what is left when the blanks in front and at the
-- end are taken off one by one.
use zyrnix.Prelude.{
  ℕ, suc, ◌+◌, ◌-◌, ◌≡◌, refl, sym, ap, ◌∙◌, true, false, Option, none, some, [], ◌∷◌,
  if◌then◌else◌, arith, Text, take, drop, Bool-cases, Option-cases, inl, inr,
}
use zyrnix.Util.{is_trimmed, find_first_not_of, find_last_not_of, position, trim}

unfoldable pub without_front : Text → Text
without_front [] = []
without_front (c ∷ t) = let rest = without_front t in if is_trimmed c then rest else c ∷ t

unfoldable pub without_back : Text → Text
without_back [] = []
without_back (c ∷ t) = elim (without_back t) [
  | [] ↦ if is_trimmed c then [] else c ∷ []
  | d ∷ ds ↦ c ∷ d ∷ ds
]

-- What the search from the end leaves of a text.
abbrev kept : Text → Option ℕ → Text
kept t none = []
kept t (some e) = take (suc e) t

last_here :
    (c : ℕ) (t : Text)
    → find_last_not_of t ≡ none
    → is_trimmed c ≡ false
    → find_last_not_of (c ∷ t) ≡ some 0
unfolding find_last_not_of
last_here c t h k = rw (find_last_not_of, h) (rw k refl)

last_later :
    (c : ℕ) (t : Text) (i : ℕ)
    → find_last_not_of t ≡ some i
    → find_last_not_of (c ∷ t) ≡ some (suc i)
unfolding find_last_not_of
last_later c t i h = rw (find_last_not_of, h) refl

back_end :
    (c : ℕ) (t : Text)
    → without_back t ≡ []
    → find_last_not_of t ≡ none
    → without_back (c ∷ t) ≡ kept (c ∷ t) (find_last_not_of (c ∷ t))
unfolding without_back find_last_not_of
back_end c t h k = elim (Bool-cases (is_trimmed c)) [
  | inl e ↦ rw (without_back, h) (rw (find_last_not_of, k) (rw e refl))
  | inr e ↦ rw (without_back, h) (rw (find_last_not_of, k) (rw e refl))
]

back_more :
    (c d i : ℕ) (t ds : Text)
    → without_back t ≡ d ∷ ds
    → find_last_not_of t ≡ some i
    → kept t (some i) ≡ d ∷ ds
    → without_back (c ∷ t) ≡ kept (c ∷ t) (find_last_not_of (c ∷ t))
unfolding without_back find_last_not_of
back_more c d i t ds h k q =
    rw (without_back, h) (rw (find_last_not_of, k) (ap (λ l. c ∷ l) (sym q)))

back-find : (t : Text) → without_back t ≡ kept t (find_last_not_of t)
unfolding without_back find_last_not_of
back-find [] = refl
back-find (c ∷ []) = back_end c [] refl refl
back-find (c ∷ x ∷ xs) = elim (Option-cases (find_last_not_of (x ∷ xs))) [
  | inl e ↦ back_end c (x ∷ xs) (back-find (x ∷ xs) ∙ ap (kept (x ∷ xs)) e) e
  | inr (i, e) ↦
      back_more c x i (x ∷ xs) (take i xs) (back-find (x ∷ xs) ∙ ap (kept (x ∷ xs)) e) e refl
]

last_none : (s : Text) → find_last_not_of s ≡ none → find_first_not_of s ≡ none
unfolding find_first_not_of
last_none [] h = refl
last_none (c ∷ s) h = elim (Option-cases (find_last_not_of s)) [
  | inl e ↦ elim (Bool-cases (is_trimmed c)) [
    | inl k ↦ rw (find_first_not_of, k) (rw (last_none s e) refl)
    | inr k ↦ absurd (ground (arith, last_here c s e k, h))
  ]
  | inr (i, e) ↦ absurd (ground (arith, last_later c s i e, h))
]

first_skip :
    (c : ℕ) (s : Text) (b : ℕ)
    → is_trimmed c ≡ true
    → find_first_not_of s ≡ some b
    → find_first_not_of (c ∷ s) ≡ some (suc b)
unfolding find_first_not_of
first_skip c s b k h = rw (find_first_not_of, k) (rw h refl)

first_stop : (c : ℕ) (s : Text) → is_trimmed c ≡ false → find_first_not_of (c ∷ s) ≡ some 0
unfolding find_first_not_of
first_stop c s k = rw (find_first_not_of, k) refl

trim_found :
    (s : Text) (b e : ℕ)
    → find_first_not_of s ≡ some b
    → find_last_not_of s ≡ some e
    → trim s ≡ take (e - b + 1) (drop b s)
unfolding trim position
trim_found s b e h k = rw (trim, h) (rw k refl)

trim-none : (s : Text) → find_first_not_of s ≡ none → trim s ≡ []
unfolding trim
trim-none s h = rw (trim, h) refl

trim_skip : (c : ℕ) (s : Text) → is_trimmed c ≡ true → trim (c ∷ s) ≡ trim s
unfolding find_first_not_of
trim_skip c s k = elim (Option-cases (find_first_not_of s)) [
  | inl e ↦ trim-none (c ∷ s) (rw (find_first_not_of, k) (rw e refl)) ∙ sym (trim-none s e)
  | inr (b, e) ↦ elim (Option-cases (find_last_not_of s)) [
    | inl l ↦ absurd (ground (arith, sym e ∙ last_none s l))
    | inr (i, l) ↦
        trim_found (c ∷ s) (suc b) (suc i) (first_skip c s b k e) (last_later c s i l)
        ∙ ap (λ n. take n (drop b s)) (same i b)
        ∙ sym (trim_found s b i e l)
  ]
]
  where
    same : (i b : ℕ) → suc i - suc b + 1 ≡ i - b + 1
    same i b = omega arith

trim_stop : (c : ℕ) (s : Text) → is_trimmed c ≡ false → trim (c ∷ s) ≡ without_back (c ∷ s)
trim_stop c s k = elim (Option-cases (find_last_not_of (c ∷ s))) [
  | inl l ↦ absurd (ground (arith, sym (first_stop c s k) ∙ last_none (c ∷ s) l))
  | inr (i, l) ↦
      trim_found (c ∷ s) 0 i (first_stop c s k) l
      ∙ ap (λ n. take n (c ∷ s)) (same i)
      ∙ sym (back-find (c ∷ s) ∙ ap (kept (c ∷ s)) l)
]
  where
    same : (i : ℕ) → i - 0 + 1 ≡ suc i
    same i = omega arith

-- Trimming is taking off the blanks in front and then those at the end, one by one.
pub trim-without_front : (s : Text) → trim s ≡ without_back (without_front s)
unfolding without_front without_back trim find_first_not_of
trim-without_front [] = refl
trim-without_front (c ∷ s) = elim (Bool-cases (is_trimmed c)) [
  | inl e ↦ trim_skip c s e ∙ trim-without_front s ∙ rw (without_front, e) refl
  | inr e ↦ trim_stop c s e ∙ rw (without_front, e) refl
]
