-- ===== src/Redact/Occurrence.antt =====
-- After redaction no pattern is left in the message.
use zyrnix.Prelude.{
  ℕ, zero, suc, ◌==◌, true, false, not, none, some, List, [], ◌∷◌, ◌≡◌, ◌∙◌, ap, refl, arith, Text,
  length, drop, all, All, Bool-cases, inl, inr,
}
use zyrnix.Redact.{is_prefix, shift, find, redact}
use zyrnix.Redact.Scrub.{scrub, redact_one-scrub}

-- A pattern with at least one byte and no asterisk.
abbrev pub IsPlain : Text → Type 0
IsPlain [] = ⊥
IsPlain (q ∷ ps) = all (λ c. not (c == b'*')) (q ∷ ps) ≡ true

-- What stands at the front of the result without an asterisk stood at the front of the text.
is_prefix-scrub :
    (p r cs : Text)
    → all (λ c. not (c == b'*')) r ≡ true
    → is_prefix r (scrub p 0 cs) ≡ true
    → is_prefix r cs ≡ true
unfolding is_prefix scrub
is_prefix-scrub p [] cs h k = refl
is_prefix-scrub p (q ∷ r) [] h k = cc
is_prefix-scrub p (q ∷ r) (c ∷ cs) h k = ground (arith, is_prefix-scrub p r cs)

-- Starred bytes hold no pattern.
not-prefix-star : (q : ℕ) (ps cs : Text) → IsPlain (q ∷ ps) → is_prefix (q ∷ ps) (b'*' ∷ cs) ≡ false
unfolding is_prefix
not-prefix-star q ps cs h = ground arith

not-prefix-scrub :
    (p r cs : Text)
    → all (λ c. not (c == b'*')) r ≡ true
    → is_prefix r cs ≡ false
    → is_prefix r (scrub p 0 cs) ≡ false
not-prefix-scrub p r cs h k = ground (arith, is_prefix-scrub p r cs h)

find-cons :
    (r : Text) (c : ℕ) (cs : Text)
    → is_prefix r (c ∷ cs) ≡ false
    → find r cs ≡ none
    → find r (c ∷ cs) ≡ none
unfolding find shift
find-cons r c cs h k = rw (h, k)

find-tail :
    (r : Text) (c : ℕ) (cs : Text)
    → find r (c ∷ cs) ≡ none
    → (is_prefix r (c ∷ cs) ≡ false) × (find r cs ≡ none)
unfolding find shift
find-tail r c cs h = ground arith

find-nil : (q : ℕ) (ps : Text) → find (q ∷ ps) [] ≡ none
unfolding find is_prefix
find-nil q ps = refl

-- How the pass goes over one byte, between occurrences.
scrub-hit :
    (p : Text) (c : ℕ) (cs : Text)
    → is_prefix p (c ∷ cs) ≡ true
    → scrub p 0 (c ∷ cs) ≡ b'*' ∷ scrub p (length (drop 1 p)) cs
unfolding scrub
scrub-hit p c cs h = rw h

scrub-miss :
    (p : Text) (c : ℕ) (cs : Text)
    → is_prefix p (c ∷ cs) ≡ false
    → scrub p 0 (c ∷ cs) ≡ c ∷ scrub p 0 cs
unfolding scrub
scrub-miss p c cs h = rw h

scrub-nil : (p : Text) (n : ℕ) → scrub p n [] ≡ []
unfolding scrub
scrub-nil p zero = refl
scrub-nil p (suc n) = refl

scrub-suc : (p : Text) (n c : ℕ) (cs : Text) → scrub p (suc n) (c ∷ cs) ≡ b'*' ∷ scrub p n cs
unfolding scrub
scrub-suc p n c cs = refl

-- The pass over the text removes every occurrence of its own pattern.
find-scrub_self :
    (q : ℕ) (ps : Text) (n : ℕ) (cs : Text)
    → IsPlain (q ∷ ps)
    → find (q ∷ ps) (scrub (q ∷ ps) n cs) ≡ none
find-scrub_self q ps n [] h = rw (scrub-nil (q ∷ ps) n) (find-nil q ps)
find-scrub_self q ps (suc n) (c ∷ cs) h =
    rw (scrub-suc (q ∷ ps) n c cs)
      (find-cons (q ∷ ps) b'*' _ (not-prefix-star q ps _ h) (find-scrub_self q ps n cs h))
find-scrub_self q ps zero (c ∷ cs) h = elim (Bool-cases (is_prefix (q ∷ ps) (c ∷ cs))) [
  | inl e ↦
      rw (scrub-hit (q ∷ ps) c cs e) (
        find-cons (q ∷ ps) b'*' _ (not-prefix-star q ps _ h)
          (find-scrub_self q ps (length ps) cs h))
  | inr e ↦
      let front : is_prefix (q ∷ ps) (c ∷ scrub (q ∷ ps) 0 cs) ≡ false =
        rw (scrub-miss (q ∷ ps) c cs e) at (not-prefix-scrub (q ∷ ps) (q ∷ ps) (c ∷ cs) h e) in
      rw (scrub-miss (q ∷ ps) c cs e)
        (find-cons (q ∷ ps) c _ front (find-scrub_self q ps zero cs h))
]

-- It brings no other pattern about.
find-scrub :
    (p : Text) (q : ℕ) (ps : Text) (n : ℕ) (cs : Text)
    → IsPlain (q ∷ ps)
    → find (q ∷ ps) cs ≡ none
    → find (q ∷ ps) (scrub p n cs) ≡ none
find-scrub p q ps n [] h k = rw (scrub-nil p n) (find-nil q ps)
find-scrub p q ps (suc n) (c ∷ cs) h k = rw (scrub-suc p n c cs) (
    find-cons (q ∷ ps) b'*' _ (not-prefix-star q ps _ h)
      (find-scrub p q ps n cs h (find-tail (q ∷ ps) c cs k).1))
find-scrub p q ps zero (c ∷ cs) h k =
    let t = find-tail (q ∷ ps) c cs k in
    elim (Bool-cases (is_prefix p (c ∷ cs))) [
      | inl e ↦ rw (scrub-hit p c cs e) (
          find-cons (q ∷ ps) b'*' _ (not-prefix-star q ps _ h)
            (find-scrub p q ps (length (drop 1 p)) cs h t.1))
      | inr e ↦
          let front : is_prefix (q ∷ ps) (c ∷ scrub p 0 cs) ≡ false =
            rw (scrub-miss p c cs e) at (not-prefix-scrub p (q ∷ ps) (c ∷ cs) h t.0) in
          rw (scrub-miss p c cs e) (find-cons (q ∷ ps) c _ front (find-scrub p q ps zero cs h t.1))
    ]

length-scrub : (p : Text) (n : ℕ) (cs : Text) → length (scrub p n cs) ≡ length cs
length-scrub p n [] = rw (scrub-nil p n)
length-scrub p (suc n) (c ∷ cs) = rw (scrub-suc p n c cs) (ap suc (length-scrub p n cs))
length-scrub p zero (c ∷ cs) = elim (Bool-cases (is_prefix p (c ∷ cs))) [
  | inl e ↦ rw (scrub-hit p c cs e) (ap suc (length-scrub p (length (drop 1 p)) cs))
  | inr e ↦ rw (scrub-miss p c cs e) (ap suc (length-scrub p zero cs))
]

-- Redacting with plain patterns ends, keeps the message's length, and keeps away whatever plain
-- pattern was not in the message.
record IsRedacted (message : Text) (ps : List Text) (result : Text) : Type 0 where
  ends : redact message ps ≡ some result
  same_length : length result ≡ length message
  keeps_away : (r : Text) → IsPlain r → find r message ≡ none → find r result ≡ none
  gone : All (λ r. find r result ≡ none) ps

scrub-keeps_away :
    (p : Text) (cs : Text) (r : Text) → IsPlain r → find r cs ≡ none → find r (scrub p 0 cs) ≡ none
scrub-keeps_away p cs [] h k = absurd h
scrub-keeps_away p cs (q ∷ r) h k = find-scrub p q r 0 cs h k

redacted :
    (message : Text) (ps : List Text)
    → All IsPlain ps
    → (result : Text) × IsRedacted message ps result
unfolding redact
redacted message [] h =
    (message, record { ends = refl; same_length = refl; keeps_away = λ r f e. e; gone = tt })
redacted message ([] ∷ ps) h = absurd h.0
redacted message ((q ∷ p) ∷ ps) h =
    let (result, m) = redacted (scrub (q ∷ p) 0 message) ps h.1 in
    (
      result,
      record {
        ends = rw (redact, redact_one-scrub q p message) m.ends;
        same_length = m.same_length ∙ length-scrub (q ∷ p) 0 message;
        keeps_away = λ r f e. m.keeps_away r f (scrub-keeps_away (q ∷ p) message r f e);
        gone = (m.keeps_away (q ∷ p) h.0 (find-scrub_self q p 0 message h.0), m.gone);
      },
    )

-- Redacting with patterns that are not empty and hold no asterisk ends; the message keeps its
-- length, and none of the patterns occurs in it any more.
pub redact_lem :
    (message : Text) (ps : List Text)
    → All IsPlain ps
    → (result : Text) × (redact message ps ≡ some result)
      × (length result ≡ length message)
      × All (λ r. find r result ≡ none) ps
redact_lem message ps h =
    let (result, m) = redacted message ps h in (result, m.ends, m.same_length, m.gone)
