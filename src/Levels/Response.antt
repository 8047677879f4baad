-- ===== src/Levels/Response.antt =====
-- `LogLevelControlResponse::to_json` of src/logger.cpp, and the answers of
-- `handle_level_change_request` as JSON.
use zyrnix.Prelude.{
  lacks, lacks-decimal, split_on, split_on-append, append_assoc, ap, ◌∙◌, ℕ, ◌≡◌, refl, Bool, true,
  false, List, [], ◌∷◌, ◌++◌, ltb, ◌⊎◌, Text, codes, decimal, arith, Bool-cases, inl, inr,
}
use zyrnix.Level.{
  LogLevel, trace, debug, info, warn, error, critical, parse_log_level, level_named, lower,
  to_lower,
}
use zyrnix.Levels.{Levels}
use zyrnix.Levels.Temporary.{handle_request_lem}
use zyrnix.Levels.Control.{
  LogLevelControlResponse, handle_request, accepted, rejected, apply_request,
}
use zyrnix.Health.Reports.{row, in_quotes, comma_rows, truth}
use zyrnix.Health.Reports.Shape.{outside, scan, scan-in_quotes, is_plain, step, pop}
use zyrnix.Health.Reports.Rows.{IsValue, outer, scan-braces, scan-comma_rows, IsValue-truth}

unfoldable pub level_text : LogLevel → Text
level_text trace = codes "trace"
level_text debug = codes "debug"
level_text info = codes "info"
level_text warn = codes "warn"
level_text error = codes "error"
level_text critical = codes "critical"

unfoldable pub response_json : LogLevelControlResponse → Text
response_json r =
    codes "{\n"
    ++ (comma_rows (
          row (codes "  ") (codes "success") (truth r.success)
          ∷ row (codes "  ") (codes "message") (in_quotes r.message)
          ∷ row (codes "  ") (codes "logger_name") (in_quotes r.logger_name)
          ∷ row (codes "  ") (codes "current_level") (in_quotes (level_text r.current_level))
          ∷ [])
        ++ codes "}")

is_plain-append : (t u : Text) → is_plain t ≡ true → is_plain u ≡ true → is_plain (t ++ u) ≡ true
unfolding is_plain
is_plain-append [] u h k = k
is_plain-append (c ∷ t) u h k = ground (arith, is_plain-append t u, h, k)

level_text-plain : (l : LogLevel) → is_plain (level_text l) ≡ true
unfolding is_plain level_text
level_text-plain trace = refl
level_text-plain debug = refl
level_text-plain info = refl
level_text-plain warn = refl
level_text-plain error = refl
level_text-plain critical = refl

-- The parser of level names reads the name in an answer.
pub parse_log_level-level_text : (l : LogLevel) → parse_log_level (level_text l) ≡ (true, l)
unfolding parse_log_level level_named level_text lower to_lower
parse_log_level-level_text trace = refl
parse_log_level-level_text debug = refl
parse_log_level-level_text info = refl
parse_log_level-level_text warn = refl
parse_log_level-level_text error = refl
parse_log_level-level_text critical = refl

response-IsValue :
    (r : LogLevelControlResponse)
    → is_plain r.message ≡ true
    → is_plain r.logger_name ≡ true
    → IsValue (response_json r)
unfolding response_json scan step pop is_plain
response-IsValue r m n s =
    scan-braces s _ (codes "}")
      (scan-comma_rows _ _ (outer _ _ refl (IsValue-truth r.success)) (
        outer _ _ refl (λ t. scan-in_quotes t r.message m),
        (
          outer _ _ refl (λ t. scan-in_quotes t r.logger_name n),
          (
            outer _ _ refl (λ t.
                scan-in_quotes t (level_text r.current_level) (level_text-plain r.current_level)),
            tt,
          ),
        ),
      ))
      refl

is_plain-lacks : (t : Text) → lacks 34 t ≡ true → lacks 92 t ≡ true → is_plain t ≡ true
unfolding is_plain lacks
is_plain-lacks [] a b = refl
is_plain-lacks (c ∷ t) a b = ground (arith, is_plain-lacks t, a, b)

message-plain :
    (s : Levels) (now : ℕ) (level : LogLevel) (reason : Text) (duration : ℕ)
    → is_plain (apply_request s now level reason duration).1 ≡ true
unfolding apply_request is_plain
message-plain s now level reason duration = elim (Bool-cases (ltb 0 duration)) [
  | inl e ↦ rw e (
      is_plain-append (codes "Log level changed temporarily for ")
        (decimal duration ++ codes " seconds") refl
        (is_plain-append (decimal duration) (codes " seconds")
          (is_plain-lacks (decimal duration) (lacks-decimal 34 duration (inl (omega arith)))
            (lacks-decimal 92 duration (inr (omega arith))))
          refl))
  | inr e ↦ rw e refl
]

plain_lacks : (t : Text) → is_plain t ≡ true → lacks 34 t ≡ true
unfolding is_plain lacks
plain_lacks [] h = refl
plain_lacks (c ∷ t) h = ground (arith, plain_lacks t, h)

-- The pieces of an answer between its quotes.
unfoldable pub answer_pieces : Text → Text → Text → Text → List Text
answer_pieces success message name level =
    codes "{\n  "
    ∷ codes "success"
    ∷ (codes ": " ++ success ++ codes ",\n  ")
    ∷ codes "message"
    ∷ codes ": "
    ∷ message
    ∷ codes ",\n  "
    ∷ codes "logger_name"
    ∷ codes ": "
    ∷ name
    ∷ codes ",\n  "
    ∷ codes "current_level"
    ∷ codes ": "
    ∷ level
    ∷ codes "\n}"
    ∷ []

-- A text in front of a quote, with what follows as `row` and `comma_rows` nest it.
quoted_piece :
    (t u v : Text)
    → lacks 34 t ≡ true
    → split_on 34 (((t ++ 34 ∷ []) ++ u) ++ v) ≡ t ∷ split_on 34 (u ++ v)
quoted_piece t u v h =
    ap (split_on 34) (append_assoc (t ++ 34 ∷ []) u v ∙ append_assoc t (34 ∷ []) (u ++ v))
    ∙ split_on-append 34 t (u ++ v) h

split_on-response :
    (success : Bool) (message name : Text) (level : LogLevel)
    → lacks 34 message ≡ true
    → lacks 34 name ≡ true
    → lacks 34 (level_text level) ≡ true
    → split_on 34 (
        response_json (record {
          success = success;
          message = message;
          current_level = level;
          logger_name = name;
        }))
      ≡ answer_pieces (truth success) message name (level_text level)
unfolding response_json answer_pieces comma_rows row in_quotes truth split_on
split_on-response true message name level m n l =
    rw (quoted_piece message _ _ m, quoted_piece name _ _ n, quoted_piece (level_text level) _ _ l)
      refl
split_on-response false message name level m n l =
    rw (quoted_piece message _ _ m, quoted_piece name _ _ n, quoted_piece (level_text level) _ _ l)
      refl

-- Where the name of the logger and the requested level hold neither a quote nor a backslash: reading
-- the JSON of the answer leaves open what was open before and finds a name in quotes behind every
-- comma, and the parser of level names reads the level in it. Cut at its quotes, the JSON has the
-- pieces of an answer: for a valid level `true` and that level, which the logger then has; for any
-- other `false`, the message with the text of the request, and the level that the logger keeps, as
-- it does all else.
pub handle_request-json :
    (name : Text) (s : Levels) (now : ℕ) (level_str reason : Text) (duration : ℕ)
    → is_plain name ≡ true
    → is_plain level_str ≡ true
    → (open_ones : List Bool)
    → let (t, r) = handle_request name s now level_str reason duration in
      (scan (open_ones, outside) (response_json r) ≡ (open_ones, outside))
      × (parse_log_level (level_text t.min_level) ≡ (true, t.min_level))
      × ((((parse_log_level level_str).0 ≡ true)
            × (t.min_level ≡ (parse_log_level level_str).1)
            × (split_on 34 (response_json r)
                ≡ answer_pieces (codes "true") r.message name (level_text t.min_level)))
          ⊎ (((parse_log_level level_str).0 ≡ false)
              × (t ≡ s)
              × (split_on 34 (response_json r)
                  ≡ answer_pieces
                      (codes "false")
                      (codes "Invalid log level: " ++ level_str)
                      name
                      (level_text s.min_level))))
unfolding handle_request accepted rejected is_plain truth
handle_request-json name s now level_str reason duration n l open_ones =
    let (succeeded, current, named, valid, invalid) =
      handle_request_lem name s now level_str reason duration in
    elim (Bool-cases (parse_log_level level_str).0) [
      | inl e ↦
          let message = (apply_request s now (parse_log_level level_str).1 reason duration).1 in
          let plain = message-plain s now (parse_log_level level_str).1 reason duration in
          rw e (
            response-IsValue _ plain n open_ones,
            parse_log_level-level_text _,
            inl (
              refl,
              rw e at (valid e),
              split_on-response true message name _ (plain_lacks message plain) (plain_lacks name n)
                  (plain_lacks _ (level_text-plain _)),
            ),
          )
      | inr e ↦
          let plain = is_plain-append (codes "Invalid log level: ") level_str refl l in
          rw e (
            response-IsValue _ plain n open_ones,
            parse_log_level-level_text _,
            inr (
              refl,
              refl,
              split_on-response false (codes "Invalid log level: " ++ level_str) name _
                  (plain_lacks _ plain) (plain_lacks name n) (plain_lacks _ (level_text-plain _)),
            ),
          )
    ]
