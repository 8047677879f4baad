-- ===== src/Redact/Scrub.antt =====
-- The loop of `redact` against one pass over the text.
use zyrnix.Prelude.{
  ℕ, zero, suc, ◌+◌, ◌≤◌, ◌<◌, true, false, none, some, [], ◌∷◌, ◌++◌, ◌≡◌, ◌∙◌, sym, ap, refl,
  arith, if◌then◌else◌, Text, length, take, drop, replicate, append_assoc, Option-cases, Bool-cases,
  inl, inr, length-append, length-take, length-drop, length-replicate, take-append-drop, take_add,
  drop_add, take-append_exact, drop-append_exact,
}
use zyrnix.Redact.{is_prefix, shift, find, find_from, replace, redact_loop, redact_one}

-- One pass: `n` bytes of an occurrence are still to be starred.
unfoldable pub scrub : Text → ℕ → Text → Text
scrub pattern n [] = []
scrub pattern (suc n) (c ∷ cs) = b'*' ∷ scrub pattern n cs
scrub pattern zero (c ∷ cs) =
    let hit = b'*' ∷ scrub pattern (length (drop 1 pattern)) cs in
    let miss = c ∷ scrub pattern zero cs in if is_prefix pattern (c ∷ cs) then hit else miss

-- Where nothing is found the pass changes nothing.
scrub-find-none : (p cs : Text) → find p cs ≡ none → scrub p 0 cs ≡ cs
unfolding find scrub
scrub-find-none p [] h = refl
scrub-find-none p (c ∷ cs) h = ground (arith, scrub-find-none p cs)

-- Stars for the rest of an occurrence.
scrub_skip :
    (p : Text) (n : ℕ) (cs : Text)
    → n ≤ length cs
    → scrub p n cs ≡ replicate n b'*' ++ scrub p 0 (drop n cs)
unfolding scrub
scrub_skip p zero cs h = refl
scrub_skip p (suc n) [] h = elim h [ ]
scrub_skip p (suc n) (c ∷ cs) h = ap (◌∷◌ b'*') (scrub_skip p n cs (omega arith))

is_prefix-length : (p cs : Text) → is_prefix p cs ≡ true → length p ≤ length cs
unfolding is_prefix
is_prefix-length [] cs h = omega arith
is_prefix-length (q ∷ p) [] h = cc
is_prefix-length (q ∷ p) (c ∷ cs) h = ground (arith, is_prefix-length p cs)

-- What the pass does up to the end of an occurrence at `i`.
abbrev Stars : Text → Text → ℕ → ℕ → Type 0
Stars p cs i end =
    (end ≤ length cs)
    × (scrub p 0 cs ≡ take i cs ++ (replicate (length p) b'*' ++ scrub p 0 (drop end cs)))

Stars-here :
    (q : ℕ) (ps : Text) (c : ℕ) (cs : Text)
    → is_prefix (q ∷ ps) (c ∷ cs) ≡ true
    → Stars (q ∷ ps) (c ∷ cs) 0 (suc (length ps))
unfolding scrub
Stars-here q ps c cs h =
    let fits = is_prefix-length (q ∷ ps) (c ∷ cs) h in
    (fits, rw h (ap (◌∷◌ b'*') (scrub_skip (q ∷ ps) (length ps) cs (omega arith))))

Stars-later :
    (q : ℕ) (ps : Text) (c : ℕ) (cs : Text) (i end : ℕ)
    → is_prefix (q ∷ ps) (c ∷ cs) ≡ false
    → Stars (q ∷ ps) cs i end
    → Stars (q ∷ ps) (c ∷ cs) (suc i) (suc end)
unfolding scrub
Stars-later q ps c cs i end h s = (omega (arith, s.0), rw h (ap (◌∷◌ c) s.1))

-- Up to the first occurrence the pass copies, and stars the occurrence.
scrub-find-some :
    (q : ℕ) (ps cs : Text) (i : ℕ)
    → find (q ∷ ps) cs ≡ some i
    → Stars (q ∷ ps) cs i (i + suc (length ps))
unfolding find shift
scrub-find-some q ps [] i e = cc
scrub-find-some q ps (c ∷ cs) i e = elim (Bool-cases (is_prefix (q ∷ ps) (c ∷ cs))) [
  | inl h ↦
      let zeroth : i ≡ 0 = ground arith in
      let end : 0 + suc (length ps) ≡ suc (length ps) = omega arith in
      rw (zeroth, end) (Stars-here q ps c cs h)
  | inr h ↦ elim (Option-cases (find (q ∷ ps) cs)) [
    | inl f ↦ ground arith
    | inr (j, f) ↦
        let next : i ≡ suc j = ground arith in
        let end : suc j + suc (length ps) ≡ suc (j + suc (length ps)) = omega arith in
        rw (next, end)
          (Stars-later q ps c cs j (j + suc (length ps)) h (scrub-find-some q ps cs j f))
  ]
]

-- The text whose first part is done, and whose rest the pass is still to go over.
done_then : (p text : Text) (pos : ℕ) → Text
done_then p text pos = take pos text ++ scrub p 0 (drop pos text)

done_then-append :
    (p xs ys text : Text) (n : ℕ)
    → text ≡ xs ++ ys
    → length xs ≡ n
    → done_then p text n ≡ xs ++ scrub p 0 ys
unfolding done_then
done_then-append p xs ys text n e l =
    rw (e, ← l) (rw (take-append_exact xs ys, drop-append_exact xs ys))

-- One round of the loop keeps what the pass will make of the text.
module _ (q : ℕ) (ps text : Text) (pos i : ℕ) (here : pos ≤ length text) where
  abbrev p : Text
  p = q ∷ ps

  abbrev stars : Text
  stars = replicate (length p) b'*'

  abbrev first : Text
  first = take (pos + i) text ++ stars

  replace-first : replace text (pos + i) (length p) stars ≡ first ++ drop (pos + i + length p) text
  unfolding replace
  replace-first = sym (append_assoc (take (pos + i) text) stars _)

  length-first : pos + i + length p ≤ length text → length first ≡ pos + i + length p
  length-first h = omega (
    arith,
    length-append (take (pos + i) text) stars,
    length-take (pos + i) text,
    length-replicate {A = ℕ} (length p) b'*',
  )

  length-replaced :
      pos + i + length p ≤ length text
      → length (replace text (pos + i) (length p) stars) ≡ length text
  length-replaced h = omega (
    arith,
    ap length replace-first,
    length-first h,
    length-append first (drop (pos + i + length p) text),
    length-drop (pos + i + length p) text,
  )

  done_then-round :
      Stars p (drop pos text) i (i + length p)
      → done_then p (replace text (pos + i) (length p) stars) (pos + i + length p)
        ≡ done_then p text pos
  unfolding done_then
  done_then-round s =
      let fits : pos + i + length p ≤ length text = omega (arith, s.0, length-drop pos text) in
      let rest : Text = drop (pos + i + length p) text in
      let later : drop (i + length p) (drop pos text) ≡ rest =
        sym (drop_add pos (i + length p) text) ∙ ap (λ (n : ℕ). drop n text) (omega arith) in
      done_then-append p first rest _ _ replace-first (length-first fits)
      ∙ rw (s.1, later, take_add pos i text) (simp append_assoc)

done_then-none :
    (q : ℕ) (ps text : Text) (pos : ℕ)
    → find (q ∷ ps) (drop pos text) ≡ none
    → done_then (q ∷ ps) text pos ≡ text
unfolding done_then
done_then-none q ps text pos e =
    rw (scrub-find-none (q ∷ ps) (drop pos text) e, take-append-drop pos text)

redact_loop-scrub :
    (fuel q : ℕ) (ps text : Text) (pos : ℕ)
    → pos ≤ length text
    → length text < fuel + pos
    → redact_loop fuel (q ∷ ps) text pos ≡ some (done_then (q ∷ ps) text pos)
unfolding redact_loop find_from shift
redact_loop-scrub zero q ps text pos h k = absurd (omega arith)
redact_loop-scrub (suc fuel) q ps text pos h k =
    elim (Option-cases (find (q ∷ ps) (drop pos text))) [
      | inl e ↦ ground (arith, done_then-none q ps text pos e)
      | inr (i, e) ↦
          let s = scrub-find-some q ps (drop pos text) i e in
          let fits : pos + i + suc (length ps) ≤ length text =
            omega (arith, s.0, length-drop pos text) in
          let same = length-replaced q ps text pos i h fits in
          let round = done_then-round q ps text pos i h s in
          let text' : Text =
            replace text (pos + i) (suc (length ps)) (replicate (suc (length ps)) b'*') in
          ground (
            arith,
            e,
            redact_loop-scrub fuel q ps text' (pos + i + suc (length ps))
                (omega (arith, same, fits)) (omega (arith, same)),
            round,
          )
    ]

-- On a pattern that is not empty the loop ends within the fuel given, and does what the pass does.
pub redact_one-scrub :
    (q : ℕ) (ps text : Text) → redact_one (q ∷ ps) text ≡ some (scrub (q ∷ ps) 0 text)
unfolding redact_one done_then
redact_one-scrub q ps text =
    redact_loop-scrub (suc (length text)) q ps text 0 (omega arith) (omega arith)

find_from-empty : (text : Text) → find_from [] text 0 ≡ some 0
unfolding find_from find shift
find_from-empty [] = refl
find_from-empty (c ∷ cs) = ground arith

-- On the empty pattern the loop never ends: whatever the fuel, it runs out.
pub redact_loop-empty : (fuel : ℕ) (text : Text) → redact_loop fuel [] text 0 ≡ none
unfolding redact_loop
redact_loop-empty zero text = refl
redact_loop-empty (suc fuel) text =
    rw (redact_loop, find_from-empty text) (redact_loop-empty fuel text)
