-- ===== src/Metrics/Exposition.antt =====
-- What a reader of the exposition format makes of the exports of src/log_metrics.cpp.
use zyrnix.Prelude.{
  concat, cut, cut-append, lacks, lacks-append, lacks-decimal, split_on, split_on-append, ℕ, ◌≡◌,
  refl, ap, ◌∙◌, true, ◌&&◌, List, [], ◌∷◌, ◌++◌, map, append_assoc, if◌then◌else◌, ◌==◌, arith,
  Text, codes, decimal, All, Bool-cases, inl, inr,
}
use zyrnix.Metrics.{LogMetrics}
use zyrnix.Metrics.Export.{Metric, line, metric_text, logger_samples, export_prometheus}
use zyrnix.Metrics.Averages.{Floating}

-- A line that is neither blank nor a comment is a sample, with its value behind the first space.
unfoldable pub read_lines : List Text → List (Text × Text)
unfolding cut
read_lines [] = []
read_lines ([] ∷ ls) = read_lines ls
read_lines ((c ∷ t) ∷ ls) =
    let rest = read_lines ls in if c == 35 then rest else cut 32 (c ∷ t) ∷ rest

unfoldable pub samples : Text → List (Text × Text)
samples text = read_lines (split_on 10 text)

pub samples_nothing : samples [] ≡ []
unfolding samples split_on read_lines
samples_nothing = refl

-- A text of one line that is no comment and of one word.
pub record IsWord (t : Text) : Type 0 where
  pub no_newline : lacks 10 t ≡ true
  pub no_space : lacks 32 t ≡ true
  pub no_hash : lacks 35 t ≡ true

pub samples-comment : (s t : Text) → lacks 10 s ≡ true → samples (line (35 ∷ s) t) ≡ samples t
unfolding samples line read_lines lacks
samples-comment s t h = rw (split_on-append 10 (35 ∷ s) t h) refl

samples-line :
    (s v t : Text)
    → IsWord s
    → (lacks 10 v ≡ true)
    → samples (line (s ++ 32 ∷ v) t) ≡ (s, v) ∷ samples t
unfolding samples line read_lines lacks
samples-line [] v t h k = rw (split_on-append 10 (32 ∷ v) t k) refl
samples-line (c ∷ s) v t h k = elim (Bool-cases (c == 35)) [
  | inl e ↦ absurd (ground (arith, h.no_hash, e))
  | inr e ↦
      rw
        (split_on-append 10 ((c ∷ s) ++ 32 ∷ v) t (lacks-append 10 (c ∷ s) (32 ∷ v) h.no_newline k))
        (rw e (ap (λ p. p ∷ samples t) (cut-append 32 (c ∷ s) v h.no_space)))
]

samples-blank : (t : Text) → samples (10 ∷ t) ≡ samples t
unfolding samples read_lines lacks
samples-blank t = rw (split_on-append 10 [] t refl) refl

pub line-append : (s t u : Text) → line s t ++ u ≡ line s (t ++ u)
unfolding line
line-append s t u = append_assoc s (10 ∷ t) u

-- What the exposition format asks of a metric.
pub record IsMetric (m : Metric) : Type 0 where
  pub name_word : IsWord m.name
  pub labels_word : IsWord m.labels
  pub help_line : lacks 10 m.help ≡ true
  pub type_line : lacks 10 m.type_name ≡ true
  pub value_line : lacks 10 m.value ≡ true

pub IsWord-append : (s t : Text) → IsWord s → IsWord t → IsWord (s ++ t)
IsWord-append s t h k = record {
  no_newline = lacks-append 10 s t h.no_newline k.no_newline;
  no_space = lacks-append 32 s t h.no_space k.no_space;
  no_hash = lacks-append 35 s t h.no_hash k.no_hash;
}

samples-metric_text :
    (prefix : Text) (m : Metric) (rest : Text)
    → IsWord prefix
    → IsMetric m
    → samples (metric_text prefix m ++ rest)
      ≡ (prefix ++ m.name ++ m.labels, m.value) ∷ samples rest
unfolding metric_text lacks
samples-metric_text prefix m rest h k =
    let help : Text = codes " HELP " ++ prefix ++ m.name ++ 32 ∷ m.help in
    let kind : Text = codes " TYPE " ++ prefix ++ m.name ++ 32 ∷ m.type_name in
    let last : Text = line ((prefix ++ m.name ++ m.labels) ++ 32 ∷ m.value) (10 ∷ []) in
    ap samples (line-append (35 ∷ help) (line (35 ∷ kind) last) rest)
    ∙ samples-comment help (line (35 ∷ kind) last ++ rest) (header m.help k.help_line)
    ∙ ap samples (line-append (35 ∷ kind) last rest)
    ∙ samples-comment kind (last ++ rest) (header m.type_name k.type_line)
    ∙ ap samples (line-append ((prefix ++ m.name ++ m.labels) ++ 32 ∷ m.value) (10 ∷ []) rest)
    ∙ samples-line (prefix ++ m.name ++ m.labels) m.value (10 ∷ rest)
        (IsWord-append (prefix ++ m.name) m.labels (IsWord-append prefix m.name h k.name_word)
          k.labels_word)
        k.value_line
    ∙ ap (λ l. (prefix ++ m.name ++ m.labels, m.value) ∷ l) (samples-blank rest)
  where
    header : (t : Text) → lacks 10 t ≡ true → lacks 10 (prefix ++ m.name ++ 32 ∷ t) ≡ true
    header t q =
        lacks-append 10 (prefix ++ m.name) (32 ∷ t)
          (lacks-append 10 prefix m.name h.no_newline k.name_word.no_newline) q

pub samples-concat :
    (prefix : Text) (ms : List Metric) (rest : Text)
    → IsWord prefix
    → All IsMetric ms
    → samples (concat (map (metric_text prefix) ms) ++ rest)
      ≡ map (λ m. (prefix ++ m.name ++ m.labels, m.value)) ms ++ samples rest
unfolding concat
samples-concat prefix [] rest h k = refl
samples-concat prefix (m ∷ ms) rest h (k, ks) =
    ap samples (append_assoc (metric_text prefix m) (concat (map (metric_text prefix) ms)) rest)
    ∙ samples-metric_text prefix m (concat (map (metric_text prefix) ms) ++ rest) h k
    ∙ ap (λ l. (prefix ++ m.name ++ m.labels, m.value) ∷ l) (samples-concat prefix ms rest h ks)

pub is_metric :
    (name help type_name labels value : Text)
    → (lacks 10 name && lacks 32 name && lacks 35 name && lacks 10 help && lacks 10 type_name)
      ≡ true
    → IsWord labels
    → lacks 10 value ≡ true
    → IsMetric
        (record { name = name; help = help; type_name = type_name; labels = labels; value = value })
unfolding lacks
is_metric name help type_name labels value h w k = record {
  name_word = record {
    no_newline = ground (arith, h);
    no_space = ground (arith, h);
    no_hash = ground (arith, h);
  };
  labels_word = w;
  help_line = ground (arith, h);
  type_line = ground (arith, h);
  value_line = k;
}

module _ {Double : Type 0} (d : Floating Double) where
  pub logger_samples-IsMetric :
      (m : LogMetrics) (now : ℕ)
      → ((x : Double) → lacks 10 (d.fixed x) ≡ true)
      → All IsMetric (logger_samples d m now)
  unfolding logger_samples lacks
  logger_samples-IsMetric m now f =
      let none_labels : IsWord [] = record { no_newline = refl; no_space = refl; no_hash = refl } in
      let word : (n : ℕ) → lacks 10 (decimal n) ≡ true =
        (λ n. lacks-decimal 10 n (inl (omega arith))) in
      (
        is_metric _ _ _ [] _ refl none_labels (word _),
        (
          is_metric _ _ _ [] _ refl none_labels (word _),
          (
            is_metric _ _ _ [] _ refl none_labels (word _),
            (
              is_metric _ _ _ [] _ refl none_labels (f _),
              (
                is_metric _ _ _ [] _ refl none_labels (f _),
                (
                  is_metric _ _ _ [] _ refl none_labels (word _),
                  (
                    is_metric _ _ _ [] _ refl none_labels (word _),
                    (
                      is_metric _ _ _ [] _ refl none_labels (word _),
                      (is_metric _ _ _ [] _ refl none_labels (word _), tt),
                    ),
                  ),
                ),
              ),
            ),
          ),
        ),
      )

  pub samples-export_prometheus :
      (prefix : Text) (m : LogMetrics) (now : ℕ) (rest : Text)
      → ((x : Double) → lacks 10 (d.fixed x) ≡ true)
      → IsWord prefix
      → samples (export_prometheus d prefix m now ++ rest)
        ≡ map (λ s. (prefix ++ s.name ++ s.labels, s.value)) (logger_samples d m now)
          ++ samples rest
  unfolding export_prometheus
  samples-export_prometheus prefix m now rest f h =
      samples-concat prefix (logger_samples d m now) rest h (logger_samples-IsMetric m now f)
