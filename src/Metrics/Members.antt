-- ===== src/Metrics/Members.antt =====
-- What a reader makes of the objects that `export_json` of src/log_metrics.cpp writes.
use zyrnix.Prelude.{
  cut, cut-append, lacks, lacks-append, lacks-decimal, split_on, split_on-append, ℕ, ◌≡◌, refl, sym,
  ap, ◌∙◌, true, ◌&&◌, List, [], ◌∷◌, ◌++◌, map, append_assoc, arith, Text, codes, decimal, All,
  inl, inr, ◌-◌, if◌then◌else◌,
}
use zyrnix.Metrics.{LogMetrics}
use zyrnix.Metrics.Export.{member, commas, logger_members, export_json}
use zyrnix.Metrics.Averages.{
  Floating, average, get_messages_per_second, get_average_log_latency_us,
  get_average_flush_latency_us,
}

unfoldable pub tail : Text → Text
tail [] = []
tail (c ∷ t) = t

-- The name between quotes and what stands behind the colon.
unfoldable pub unquote : Text × Text → Text × Text
unquote (name, value) = ((cut 34 (tail name)).0, value)

unfoldable pub read_member : Text → Text × Text
read_member text = unquote (cut 58 text)

-- A flat object: what stands between the braces, parted at commas.
unfoldable pub read_object : Text → List (Text × Text)
read_object text = map read_member (split_on 44 (cut 125 (tail text)).0)

-- A name and a value without the characters that a reader of flat objects stops at.
pub record IsMember (p : Text × Text) : Type 0 where
  pub name_comma : lacks 44 p.0 ≡ true
  pub name_colon : lacks 58 p.0 ≡ true
  pub name_quote : lacks 34 p.0 ≡ true
  pub name_brace : lacks 125 p.0 ≡ true
  pub value_comma : lacks 44 p.1 ≡ true
  pub value_brace : lacks 125 p.1 ≡ true

member_colon : (name value : Text) → member name value ≡ ((34 ∷ name) ++ 34 ∷ []) ++ 58 ∷ value
unfolding member
member_colon name value =
    append_assoc (34 ∷ name) (34 ∷ 58 ∷ []) value
    ∙ sym (append_assoc (34 ∷ name) (34 ∷ []) (58 ∷ value))

read_member-member : (p : Text × Text) → IsMember p → read_member (member p.0 p.1) ≡ p
unfolding read_member unquote tail lacks
read_member-member (name, value) h =
    let quoted : Text = (34 ∷ name) ++ 34 ∷ [] in
    let parts : cut 58 (member name value) ≡ (quoted, value) =
      ap (cut 58) (member_colon name value)
      ∙ cut-append 58 quoted value (lacks-append 58 (34 ∷ name) (34 ∷ []) h.name_colon refl) in
    ap unquote parts ∙ ap (λ (q : Text × Text). (q.0, value)) (cut-append 34 name [] h.name_quote)

lacks-member :
    (sep : ℕ) (p : Text × Text)
    → lacks sep (34 ∷ 58 ∷ []) ≡ true
    → lacks sep p.0 ≡ true
    → lacks sep p.1 ≡ true
    → lacks sep (member p.0 p.1) ≡ true
unfolding member lacks
lacks-member sep (name, value) q h k =
    lacks-append sep ((34 ∷ name) ++ 34 ∷ 58 ∷ []) value
      (lacks-append sep (34 ∷ name) (34 ∷ 58 ∷ []) (ground (arith, q, h)) q) k

split_on-single : (sep : ℕ) (t : Text) → lacks sep t ≡ true → split_on sep t ≡ t ∷ []
unfolding split_on lacks
split_on-single sep [] h = refl
split_on-single sep (c ∷ t) h = ground (arith, split_on-single sep t)

read-commas :
    (ps : List (Text × Text)) (p : Text × Text)
    → IsMember p
    → All IsMember ps
    → map read_member (split_on 44 (commas (map (λ q. member q.0 q.1) (p ∷ ps)))) ≡ p ∷ ps
unfolding commas lacks
read-commas [] p h tt =
    rw (split_on-single 44 (member p.0 p.1) (lacks-member 44 p refl h.name_comma h.value_comma))
      (ap (λ q. q ∷ []) (read_member-member p h))
read-commas (q ∷ ps) p h (k, ks) =
    rw
      (split_on-append 44 (member p.0 p.1) (commas (map (λ q. member q.0 q.1) (q ∷ ps)))
        (lacks-member 44 p refl h.name_comma h.value_comma))
      (rw (read_member-member p h) (ap (λ l. p ∷ l) (read-commas ps q k ks)))

lacks-commas :
    (ps : List (Text × Text))
    → All IsMember ps
    → lacks 125 (commas (map (λ q. member q.0 q.1) ps)) ≡ true
unfolding commas lacks
lacks-commas [] h = refl
lacks-commas (p ∷ []) (h, tt) = lacks-member 125 p refl h.name_brace h.value_brace
lacks-commas (p ∷ q ∷ ps) (h, hs) =
    lacks-append 125 (member p.0 p.1) _ (lacks-member 125 p refl h.name_brace h.value_brace)
      (lacks-commas (q ∷ ps) hs)

-- The objects of sinks and loggers.
pub read_object-commas :
    (p : Text × Text) (ps : List (Text × Text))
    → IsMember p
    → All IsMember ps
    → read_object (codes "{" ++ commas (map (λ q. member q.0 q.1) (p ∷ ps)) ++ codes "}") ≡ p ∷ ps
unfolding read_object tail
read_object-commas p ps h hs =
    rw
      (cut-append 125 (commas (map (λ q. member q.0 q.1) (p ∷ ps))) []
        (lacks-commas (p ∷ ps) (h, hs)))
      (read-commas ps p h hs)

is_member :
    (name value : Text)
    → (lacks 44 name && lacks 58 name && lacks 34 name && lacks 125 name) ≡ true
    → lacks 44 value ≡ true
    → lacks 125 value ≡ true
    → IsMember (name, value)
is_member name value h k l = record {
  name_comma = ground (arith, h);
  name_colon = ground (arith, h);
  name_quote = ground (arith, h);
  name_brace = ground (arith, h);
  value_comma = k;
  value_brace = l;
}

-- Where the text of a `double` has neither a comma nor a brace, a reader of flat objects finds in the
-- export of a logger's metrics twelve names and their values, as listed: the counts, the rate, the
-- averages and the highest of the latencies, and the depths of the queue.
pub read_object-export_json :
    {Double : Type 0} (d : Floating Double) (m : LogMetrics) (now : ℕ)
    → ((x : Double) → (lacks 44 (d.fixed x) && lacks 125 (d.fixed x)) ≡ true)
    → read_object (export_json d m now)
      ≡ (codes "messages_logged", decimal m.messages_logged)
        ∷ (codes "messages_dropped", decimal m.messages_dropped)
        ∷ (codes "messages_filtered", decimal m.messages_filtered)
        ∷ (codes "flushes", decimal m.flushes)
        ∷ (codes "errors", decimal m.errors)
        ∷ (
          codes "messages_per_second",
          d.fixed (
              if d.less (d.of_nanoseconds (now - m.start_time)) d.millisecond
              then d.zero_double
              else d.divide (d.of_count m.messages_logged) (d.of_nanoseconds (now - m.start_time))),
        )
        ∷ (codes "avg_log_latency_us", d.fixed (average d m.total_log_time_us m.messages_logged))
        ∷ (codes "avg_flush_latency_us", d.fixed (average d m.total_flush_time_us m.flushes))
        ∷ (codes "max_log_latency_us", decimal m.max_log_latency_us)
        ∷ (codes "max_flush_latency_us", decimal m.max_flush_latency_us)
        ∷ (codes "current_queue_depth", decimal m.current_depth)
        ∷ (codes "max_queue_depth", decimal m.max_depth)
        ∷ []
unfolding export_json logger_members lacks get_messages_per_second get_average_log_latency_us
    get_average_flush_latency_us
read_object-export_json d m now f = read_object-commas _ _ (count _ refl _) (
  count _ refl _,
  (
    count _ refl _,
    (
      count _ refl _,
      (
        count _ refl _,
        (
          double _ refl _,
          (
            double _ refl _,
            (
              double _ refl _,
              (count _ refl _, (count _ refl _, (count _ refl _, (count _ refl _, tt)))),
            ),
          ),
        ),
      ),
    ),
  ),
)
  where
    count :
        (name : Text)
        → (lacks 44 name && lacks 58 name && lacks 34 name && lacks 125 name) ≡ true
        → (n : ℕ) → IsMember (name, decimal n)
    count name h n =
        is_member name _ h (lacks-decimal 44 n (inl (omega arith)))
          (lacks-decimal 125 n (inr (omega arith)))

    double :
        (name : Text)
        → (lacks 44 name && lacks 58 name && lacks 34 name && lacks 125 name) ≡ true
        → (x : _) → IsMember (name, d.fixed x)
    double name h x = is_member name _ h (ground (arith, f x)) (ground (arith, f x))
