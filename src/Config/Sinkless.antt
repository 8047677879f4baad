-- ===== src/Config/Sinkless.antt =====
-- What the parser makes of any text: it always ends, its errors, and the sinks of a configuration.
use zyrnix.Prelude.{
  ℕ, zero, suc, ◌+◌, ◌-◌, ◌<◌, ◌≤◌, ◌≡◌, refl, subst, false, Option, none, some, [], ◌∷◌, ◌++◌, ltb,
  ltb→lt, ◌==◌, arith, Text, codes, length, take, drop, get_elem?, All, All-append, Bool-cases,
  Option-cases, inl, inr,
}
use zyrnix.Redact.{find_from}
use zyrnix.Scan.{substring, quoted, spaces}
use zyrnix.Config.{
  LoggerConfig, parse_sinks, up_to_bracket, sinks_of, parse_head, parse_redaction, parse_object,
  ConfigLoader, push_config, parse_objects,
}
use zyrnix.Scan.Search.{
  holds, holds-part, before_last, take-found, find-first, find_from-first, find_from-holds_not,
}

-- A text up to its first closing brace, and nothing after it.
abbrev pub IsClosed : Text → Type 0
IsClosed obj = (u : Text) × (holds b'}' u ≡ false) × (obj ≡ u ++ b'}' ∷ [])

pub record IsSinkless (c : LoggerConfig) : Type 0 where
  pub no_sinks : c.sinks ≡ []
  pub no_params : c.sink_params ≡ []

part-holds_not :
    (obj : Text) (start end : ℕ)
    → IsClosed obj
    → get_elem? obj end ≡ some b']'
    → holds b'}' (substring obj (suc start) end) ≡ false
unfolding substring
part-holds_not obj start end (u, h, e) k = rw e (
    holds-part b'}' (end - suc start) (suc start) u (b'}' ∷ []) h (
      omega
        (arith, before_last b'}' b']' end u (subst (λ t. get_elem? t end ≡ some b']') e k) refl)))

up_to_bracket-holds_not :
    (obj content : Text) (start : ℕ)
    → IsClosed obj
    → up_to_bracket obj start ≡ some content
    → holds b'}' content ≡ false
unfolding up_to_bracket
up_to_bracket-holds_not obj content start c k =
    elim (Option-cases (find_from (codes "]") obj start)) [
      | inl n ↦ absurd (ground (arith, k))
      | inr (end, s) ↦
          subst (λ t. holds b'}' t ≡ false) (ground (arith, k, s))
            (part-holds_not obj start end c (find_from-first b']' start end obj s).2)
    ]

parse_sinks-stuck :
    (fuel : ℕ) (content : Text) (pos : ℕ) (config : LoggerConfig)
    → holds b'}' content ≡ false
    → parse_sinks (suc fuel) content pos config ≡ some config
unfolding parse_sinks
parse_sinks-stuck fuel content pos config h =
    elim (Option-cases (find_from (codes "{") content pos)) [
      | inl n ↦ rw (parse_sinks, n) refl
      | inr (start, s) ↦ rw (parse_sinks, s, find_from-holds_not b'}' start content h) refl
    ]

sinks_of-holds_not :
    (obj content : Text) → IsClosed obj → sinks_of obj ≡ some content → holds b'}' content ≡ false
unfolding sinks_of
sinks_of-holds_not obj content c k =
    elim (Option-cases (find_from (quoted (codes "sinks")) obj 0)) [
      | inl n ↦ absurd (ground (arith, k))
      | inr (p, s) ↦ elim (Option-cases (find_from (codes "[") obj p)) [
        | inl n ↦ absurd (ground (arith, k))
        | inr (start, t) ↦ up_to_bracket-holds_not obj content start c (ground (arith, k))
      ]
    ]

-- A parse gives a result of the kind.
unfoldable pub Gives {ℓ} : {A : Type ℓ} → (A → Type 0) → Option A → Type 0
Gives P none = ⊥
Gives P (some a) = P a

parse_object-IsSinkless :
    (obj : Text) (end : ℕ) → IsClosed obj → Gives IsSinkless (parse_object obj end)
unfolding parse_object parse_redaction parse_head Gives
parse_object-IsSinkless obj end c = elim (Option-cases (sinks_of obj)) [
  | inl n ↦ rw (parse_object, n) record { no_sinks = refl; no_params = refl }
  | inr (content, s) ↦
      rw
        (
          parse_object,
          s,
          parse_sinks-stuck (length content) content 0 (parse_head obj end)
              (sinks_of-holds_not obj content c s),
        )
        record { no_sinks = refl; no_params = refl }
]

-- The text of an object is closed.
object-IsClosed :
    (content : Text) (start end : ℕ)
    → find_from (codes "}") content start ≡ some end
    → IsClosed (substring content start (suc end)) × (start ≤ end)
unfolding substring
object-IsClosed content start end h =
    let (i, e, k, f) = find_from-first b'}' start end content h in
    let t = drop start content in
    let n : suc end - start ≡ suc i = omega arith in
    ((take i t, (find-first b'}' i t f).2, rw n (take-found b'}' i t f)), omega arith)

-- Every configuration that is read has a name and no sinks.
abbrev pub AllSinkless : ConfigLoader → Type 0
AllSinkless loader = All (λ c. IsSinkless c × (0 < length c.name)) loader.configs

push_config-AllSinkless :
    (config : LoggerConfig) (loader : ConfigLoader)
    → IsSinkless config
    → AllSinkless loader
    → AllSinkless (push_config config loader)
unfolding push_config
push_config-AllSinkless config loader s h = elim (Bool-cases (ltb 0 (length config.name))) [
  | inl e ↦
      rw (push_config, e) (All-append _ loader.configs (config ∷ []) h ((s, ltb→lt 0 _ e), tt))
  | inr e ↦ rw (push_config, e) h
]

get_elem?-within : (t : Text) (i c : ℕ) → get_elem? t i ≡ some c → i < length t
get_elem?-within [] i c h = absurd (ground arith)
get_elem?-within (d ∷ t) zero c h = omega arith
get_elem?-within (d ∷ t) (suc i) c h = omega (arith, get_elem?-within t i c h)

pub Gives-bind :
    {A B : Type 0} (P : A → Type 0) (Q : B → Type 0) (o : Option A) (f : A → Option B)
    → Gives P o
    → ((a : A) → P a → Gives Q (f a))
    → Gives Q (elim o [ none ↦ none | some a ↦ f a ])
unfolding Gives
Gives-bind P Q none f h k = absurd h
Gives-bind P Q (some a) f h k = k a h

pub Gives-some :
    {A : Type 0} {P : A → Type 0} (o : Option A) → Gives P o → (a : A) × (o ≡ some a) × P a
unfolding Gives
Gives-some none h = absurd h
Gives-some (some a) h = (a, refl, h)

pub parse_objects-AllSinkless :
    (fuel : ℕ) (content : Text) (pos : ℕ) (loader : ConfigLoader)
    → length content < fuel + pos
    → AllSinkless loader
    → Gives AllSinkless (parse_objects (suc fuel) content pos loader)
unfolding parse_objects Gives
parse_objects-AllSinkless zero content pos loader l h =
    let start = pos + spaces (drop pos content) in
    elim (Option-cases (get_elem? content start)) [
      | inl n ↦ rw (parse_objects, n) h
      | inr (c, s) ↦ absurd (omega (arith, get_elem?-within content start c s))
    ]
parse_objects-AllSinkless (suc fuel) content pos loader l h =
    let start = pos + spaces (drop pos content) in
    elim (Option-cases (get_elem? content start)) [
      | inl n ↦ rw (parse_objects, n) h
      | inr (c, s) ↦ elim (Bool-cases (c == b']')) [
        | inl e ↦ rw (parse_objects, s, e) h
        | inr e ↦ elim (Bool-cases (c == b'{')) [
          | inr f ↦
              rw (parse_objects, s, e, f)
                (parse_objects-AllSinkless fuel content (suc start) loader (omega arith) h)
          | inl f ↦ elim (Option-cases (find_from (codes "}") content start)) [
            | inl n ↦ rw (parse_objects, s, e, f, n) h
            | inr (end, t) ↦
                let (closed, later) = object-IsClosed content start end t in
                rw (parse_objects, s, e, f, t)
                  (Gives-bind IsSinkless AllSinkless
                    (parse_object (substring content start (suc end)) end)
                    (λ config.
                      parse_objects (suc fuel) content (suc end) (push_config config loader))
                    (parse_object-IsSinkless (substring content start (suc end)) end closed)
                    (λ config k.
                      parse_objects-AllSinkless fuel content (suc end) (push_config config loader)
                        (omega arith) (push_config-AllSinkless config loader k h)))
          ]
        ]
      ]
    ]
