-- ===== src/Logger/Removal/Unused.antt =====
-- Sinks that nobody uses: no change of the list of sinks in src/logger.cpp puts one to use.
use zyrnix.Prelude.{
  ℕ, zero, suc, ◌≡◌, refl, sym, ap, ◌∙◌, Bool, Option, none, some, List, [], ◌∷◌, filter, arith,
  Text, get_elem?, All, if-both,
}
use zyrnix.Logger.{SinkEntry, mark_first, is_live, mark_at}

pub some-inj : {A : Type 0} (a b : A) → some a ≡ some b → a ≡ b
some-inj {A} a b h = ap or_a h
  where
    or_a : Option A → A
    or_a none = a
    or_a (some c) = c

pub zeros :
    (es : List SinkEntry)
    → ((i : ℕ) (e : SinkEntry) → get_elem? es i ≡ some e → e.ref_count ≡ 0)
    → All (λ e. e.ref_count ≡ 0) es
zeros [] h = tt
zeros (e ∷ es) h = (h 0 e refl, zeros es (λ i. h (suc i)))

pub All-get_elem? :
    (es : List SinkEntry) (i : ℕ) (e : SinkEntry)
    → All (λ c. c.ref_count ≡ 0) es
    → get_elem? es i ≡ some e
    → e.ref_count ≡ 0
All-get_elem? [] i e h k = absurd (ground (arith, k))
All-get_elem? (c ∷ es) zero e (z, h) k =
    ap (λ (d : SinkEntry). d.ref_count) (sym (some-inj c e k)) ∙ z
All-get_elem? (c ∷ es) (suc i) e (z, h) k = All-get_elem? es i e h k

pub All-filter :
    (p : SinkEntry → Bool) (es : List SinkEntry)
    → All (λ e. e.ref_count ≡ 0) es
    → All (λ e. e.ref_count ≡ 0) (filter p es)
All-filter p [] h = tt
All-filter p (e ∷ es) (z, h) =
    if-both (All (λ e. e.ref_count ≡ 0)) (p e) (z, All-filter p es h) (All-filter p es h)

pub All-mark_first :
    (name : Text) (es : List SinkEntry)
    → All (λ e. e.ref_count ≡ 0) es
    → All (λ e. e.ref_count ≡ 0) (mark_first name es)
unfolding mark_first
All-mark_first name [] h = tt
All-mark_first name (e ∷ es) (z, h) =
    if-both (All (λ e. e.ref_count ≡ 0)) (is_live name e) (z, h) (z, All-mark_first name es h)

pub All-mark_at :
    (i : ℕ) (es : List SinkEntry)
    → All (λ e. e.ref_count ≡ 0) es
    → All (λ e. e.ref_count ≡ 0) (mark_at i es)
unfolding mark_at
All-mark_at i [] h = tt
All-mark_at zero (e ∷ es) (z, h) = (z, h)
All-mark_at (suc i) (e ∷ es) (z, h) = (z, All-mark_at i es h)
