-- ===== src/Logger/Removal/Guarded.antt =====
-- What guards a sink from its removal.
use zyrnix.Prelude.{
  ℕ, zero, suc, ◌+◌, ◌<◌, ◌≡◌, refl, sym, ap, subst, ◌∙◌, true, false, some, List, [], ◌∷◌, ◌++◌,
  if◌then◌else◌, ltb, ◌==◌, arith, get_elem?, set, All, Bool-cases, ltb→lt, ◌⊎◌, ==_iff,
  Option-cases, inl, inr,
}
use zyrnix.Logger.{Delivery, SinkEntry}
use zyrnix.Logger.Logging.{receive}
use zyrnix.Logger.Removal.Unused.{some-inj, zeros, All-get_elem?}
use zyrnix.Logger.Removal.{Stage, between, guarding, logged, Visitor, Sinks}

-- Whether a visitor has a guard on the entry of an index.
unfoldable pub guards : ℕ → Visitor → ℕ
guards i v = elim v.stage [
  | between ↦ 0
  | guarding ↦ if v.index == i then 1 else 0
  | logged ↦ if v.index == i then 1 else 0
]

unfoldable pub holders : ℕ → List Visitor → ℕ
holders i [] = 0
holders i (v ∷ vs) = guards i v + holders i vs

pub holders_at :
    (i : ℕ) (before : List Visitor) (v : Visitor) (after : List Visitor)
    → holders i (before ++ v ∷ after) ≡ guards i v + holders i (before ++ after)
unfolding holders
holders_at i [] v after = refl
holders_at i (w ∷ ws) v after = omega (arith, holders_at i ws v after)

get_elem?-set :
    {A : Type 0} (xs : List A) (i j : ℕ) (v w : A)
    → get_elem? xs i ≡ some w
    → get_elem? (set xs i v) j ≡ (if i == j then some v else get_elem? xs j)
get_elem?-set [] i j v w h = absurd (ground (arith, h))
get_elem?-set (x ∷ xs) zero zero v w h = ground arith
get_elem?-set (x ∷ xs) zero (suc j) v w h = ground arith
get_elem?-set (x ∷ xs) (suc i) zero v w h = ground arith
get_elem?-set (x ∷ xs) (suc i) (suc j) v w h = ground (arith, get_elem?-set xs i j v w h)

-- The reference count of each entry is the number of its guards, and an entry that is marked has
-- none.
pub record IsGuarded (s : Sinks) : Type 0 where
  pub counted :
      (i : ℕ) (e : SinkEntry)
      → get_elem? s.sink_entries i ≡ some e
      → e.ref_count ≡ holders i s.visitors
  pub unmarked :
      (i : ℕ)
      → 0 < holders i s.visitors
      → (e : SinkEntry) × (get_elem? s.sink_entries i ≡ some e) × (e.marked_for_removal ≡ false)

pub guards-between : (i : ℕ) (v : Visitor) → v.stage ≡ between → guards i v ≡ 0
unfolding guards
guards-between i v h = rw (guards, h) refl

pub guards-other : (i : ℕ) (v : Visitor) → (v.index == i) ≡ false → guards i v ≡ 0
unfolding guards
guards-other i v h = at v.stage refl
  where
    at : (g : Stage) → v.stage ≡ g → guards i v ≡ 0
    at between e = rw (guards, e) refl
    at guarding e = rw (guards, e, h) refl
    at logged e = rw (guards, e, h) refl

-- A visitor moves, and the entry of its index with it.
pub changed-IsGuarded :
    (s : Sinks) (before : List Visitor) (v w : Visitor) (after : List Visitor) (e f : SinkEntry)
    → IsGuarded s
    → s.visitors ≡ before ++ v ∷ after
    → get_elem? s.sink_entries v.index ≡ some e
    → f.marked_for_removal ≡ e.marked_for_removal
    → f.ref_count + guards v.index v ≡ e.ref_count + guards v.index w
    → ((j : ℕ) → (v.index == j) ≡ false → guards j w ≡ 0)
    → (0 < guards v.index w → e.marked_for_removal ≡ false)
    → IsGuarded
        (record { sink_entries = set s.sink_entries v.index f; visitors = before ++ w ∷ after })
changed-IsGuarded s before v w after e f h k at same delta other free = record {
  counted = count;
  unmarked = live;
}
  where
    visited : (j : ℕ) → holders j s.visitors ≡ guards j v + holders j (before ++ after)
    visited j = ap (holders j) k ∙ holders_at j before v after

    moved : (j : ℕ) → holders j (before ++ w ∷ after) ≡ guards j w + holders j (before ++ after)
    moved j = holders_at j before w after

    entry :
        (j : ℕ)
        → get_elem? (set s.sink_entries v.index f) j
          ≡ (if v.index == j then some f else get_elem? s.sink_entries j)
    entry j = get_elem?-set s.sink_entries v.index j f e at

    count :
        (j : ℕ) (g : SinkEntry)
        → get_elem? (set s.sink_entries v.index f) j ≡ some g
        → g.ref_count ≡ holders j (before ++ w ∷ after)
    count j g p = elim (Bool-cases (v.index == j)) [
      | inl x ↦
          let q : f ≡ g = some-inj f g (sym (entry j ∙ rw x refl) ∙ p) in
          subst (λ i. g.ref_count ≡ holders i (before ++ w ∷ after)) ((==_iff v.index j).0 x)
            (omega (
              arith,
              ap (λ (c : SinkEntry). c.ref_count) q,
              delta,
              h.counted v.index e at,
              visited v.index,
              moved v.index,
            ))
      | inr x ↦ omega (
        arith,
        h.counted j g (sym (entry j ∙ rw x refl) ∙ p),
        visited j,
        moved j,
        guards-other j v x,
        other j x,
      )
    ]

    stays :
        (j : ℕ)
        → 0 < holders j (before ++ w ∷ after)
        → (v.index == j) ≡ true
        → (ltb 0 (guards v.index w) ≡ true) ⊎ (ltb 0 (guards v.index w) ≡ false)
        → e.marked_for_removal ≡ false
    stays j p x (inl y) = free (ltb→lt 0 _ y)
    stays j p x (inr y) =
        let same_place : j ≡ v.index = sym ((==_iff v.index j).0 x) in
        let busy : 0 < holders v.index (before ++ w ∷ after) =
          subst (λ i. 0 < holders i (before ++ w ∷ after)) same_place p in
        let none_new : guards v.index w ≡ 0 = ground (arith, y) in
        let (c, q, r) =
          h.unmarked v.index (omega (arith, busy, none_new, visited v.index, moved v.index)) in
        ap (λ (d : SinkEntry). d.marked_for_removal) (some-inj e c (sym at ∙ q)) ∙ r

    live :
        (j : ℕ)
        → 0 < holders j (before ++ w ∷ after)
        → (c : SinkEntry) × (get_elem? (set s.sink_entries v.index f) j ≡ some c)
          × (c.marked_for_removal ≡ false)
    live j p = elim (Bool-cases (v.index == j)) [
      | inl x ↦ (f, entry j ∙ rw x refl, same ∙ stays j p x (Bool-cases (ltb 0 (guards v.index w))))
      | inr x ↦
          let (c, q, r) = h.unmarked j (omega (arith, p, visited j, moved j, other j x)) in
          (c, entry j ∙ rw x q, r)
    ]

-- Without visitors no entry is in use.
pub at_rest :
    (s : Sinks) → IsGuarded s → s.visitors ≡ [] → All (λ e. e.ref_count ≡ 0) s.sink_entries
unfolding holders
at_rest s h k = zeros s.sink_entries (λ i e p. h.counted i e p ∙ ap (holders i) k)

pub quiet-IsGuarded :
    (s : Sinks) (es : List SinkEntry)
    → s.visitors ≡ []
    → All (λ e. e.ref_count ≡ 0) es
    → IsGuarded (record s { sink_entries = es })
unfolding holders
quiet-IsGuarded s es k h = record {
  counted = λ i e p. All-get_elem? es i e h p ∙ sym (ap (holders i) k);
  unmarked = λ i p. absurd (omega (arith, p, ap (holders i) k));
}

pub receive-same :
    (e : SinkEntry) (d : Delivery)
    → ((receive e d).ref_count ≡ e.ref_count)
      × ((receive e d).marked_for_removal ≡ e.marked_for_removal)
unfolding receive
receive-same e d = elim (Option-cases e.sink) [
  | inl n ↦ rw (receive, n) (refl, refl)
  | inr (k, n) ↦ rw (receive, n) (refl, refl)
]

-- A visitor that holds a guard holds it on an entry that is not marked.
pub held_free :
    (s : Sinks) (before : List Visitor) (v : Visitor) (after : List Visitor) (e : SinkEntry)
    → IsGuarded s
    → s.visitors ≡ before ++ v ∷ after
    → get_elem? s.sink_entries v.index ≡ some e
    → guards v.index v ≡ 1
    → e.marked_for_removal ≡ false
held_free s before v after e h k at one =
    let (c, q, r) =
      h.unmarked v.index
        (omega (arith, one, ap (holders v.index) k, holders_at v.index before v after)) in
    ap (λ (d : SinkEntry). d.marked_for_removal) (some-inj e c (sym at ∙ q)) ∙ r
