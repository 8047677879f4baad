-- ===== src/Output/Hidden.antt =====
-- The cloud sinks inside a `MultiSink`: what `Logger::log` of src/logger.cpp hands to the multi sink of
-- include/Zyrnix/sinks/multi_sink.hpp, and what that hands on.
use zyrnix.Prelude.{
  ℕ, ◌≡◌, refl, sym, ap, ◌∙◌, true, false, List, [], ◌∷◌, ◌++◌, append_assoc, append-nil, map, Text,
  text_eq, some, if◌then◌else◌, Bool-cases, inl, inr,
}
use zyrnix.Level.{LogLevel}
use zyrnix.Logger.{Logger, SinkEntry, Delivery}
use zyrnix.Logger.{Sink as HeldSink}
use zyrnix.Logger.Logging.{visit, overridden, receive, is_cloud}
use zyrnix.Output.{
  UdpSink, Sink, Sinks, nil, cons, null_sink, stdout_sink, udp_sink, syslog_sink, cloud_sink,
  multi_sink, is_cloud_sink, Effect, prints, sends, reports, takes, log, log_each, udp_log,
  stdout_log, syslog_log,
}

-- The cloud sinks in a sink.
unfoldable mutual
  pub clouds : Sink → List ℕ
  clouds null_sink = []
  clouds stdout_sink = []
  clouds (udp_sink u) = []
  clouds (syslog_sink ident) = []
  clouds (cloud_sink id) = id ∷ []
  clouds (multi_sink ss) = clouds_each ss

  pub clouds_each : Sinks → List ℕ
  clouds_each nil = []
  clouds_each (cons s ss) = clouds s ++ clouds_each ss

-- What cloud sinks took.
unfoldable pub taken : List Effect → List (ℕ × Text)
taken [] = []
taken (prints line ∷ es) = taken es
taken (sends fd dest line ∷ es) = taken es
taken (reports ident priority line ∷ es) = taken es
taken (takes id message ∷ es) = (id, message) ∷ taken es

taken-append : (es fs : List Effect) → taken (es ++ fs) ≡ taken es ++ taken fs
unfolding taken
taken-append [] fs = refl
taken-append (prints line ∷ es) fs = taken-append es fs
taken-append (sends fd dest line ∷ es) fs = taken-append es fs
taken-append (reports ident priority line ∷ es) fs = taken-append es fs
taken-append (takes id message ∷ es) fs = ap (λ l. (id, message) ∷ l) (taken-append es fs)

map-append_lists :
    {A B : Type 0} (f : A → B) (xs ys : List A) → map f (xs ++ ys) ≡ map f xs ++ map f ys
map-append_lists f [] ys = refl
map-append_lists f (x ∷ xs) ys = ap (λ l. f x ∷ l) (map-append_lists f xs ys)

module _ (time : ℕ → Text) (name : Text) (level : LogLevel) (message : Text) where
  abbrev handed : List ℕ → List (ℕ × Text)
  handed = map (λ id. (id, message))

  udp_log-taken :
      (u : UdpSink) (done : List Effect)
      → taken (udp_log time u name level message done) ≡ taken done ++ []
  unfolding udp_log taken
  udp_log-taken u done = elim (Bool-cases u.initialized) [
    | inl e ↦ rw (udp_log, e) (taken-append done _)
    | inr e ↦ rw (udp_log, e) (sym (append-nil (taken done)))
  ]

  mutual
    unfolding log log_each stdout_log syslog_log clouds clouds_each taken

    pub log-taken :
        (s : Sink) (done : List Effect)
        → taken (log time s name level message done) ≡ taken done ++ handed (clouds s)
    log-taken null_sink done = sym (append-nil (taken done))
    log-taken stdout_sink done = taken-append done _
    log-taken (udp_sink u) done = udp_log-taken u done
    log-taken (syslog_sink ident) done = taken-append done _
    log-taken (cloud_sink id) done = taken-append done _
    log-taken (multi_sink ss) done = log_each-taken ss done

    pub log_each-taken :
        (ss : Sinks) (done : List Effect)
        → taken (log_each time ss name level message done) ≡ taken done ++ handed (clouds_each ss)
    log_each-taken nil done = sym (append-nil (taken done))
    log_each-taken (cons s ss) done =
        log_each-taken ss (log time s name level message done)
        ∙ ap (λ l. l ++ handed (clouds_each ss)) (log-taken s done)
        ∙ append_assoc (taken done) (handed (clouds s)) (handed (clouds_each ss))
        ∙ ap (λ l. taken done ++ l)
            (sym (map-append_lists (λ id. (id, message)) (clouds s) (clouds_each ss)))

is_cloud-sink : (e : SinkEntry) (s : HeldSink) → e.sink ≡ some s → is_cloud e ≡ s.is_cloud_sink
unfolding is_cloud
is_cloud-sink e s h = rw (is_cloud, h) refl

visit_handed :
    (l : Logger) (level : LogLevel) (message redacted : Text) (i : ℕ) (e : SinkEntry) (s : HeldSink)
    → l.redact_cloud_only ≡ true
    → text_eq redacted message ≡ false
    → e.marked_for_removal ≡ false
    → overridden l level i ≡ false
    → e.sink ≡ some s
    → visit l level message redacted i e
      ≡ receive e (record {
        name = l.name;
        level = level;
        message = if s.is_cloud_sink then redacted else message;
      })
unfolding visit
visit_handed l level message redacted i e s only changed unmarked allowed sink =
    simp unmarked (simp allowed (simp only (simp changed (rw (is_cloud-sink e _ sink) refl))))

-- The entry of a logger with a sink in it, which has received some messages.
unfoldable pub holding : SinkEntry → List Delivery → Sink → SinkEntry
holding e received s = record e {
  sink = some (record { is_cloud_sink = is_cloud_sink s; received = received });
}

-- With redaction for cloud sinks only and a message that redaction changes, at a place of a logger
-- that is neither marked nor kept from the message by its level: a multi sink is handed the message
-- as it is, and then every cloud sink inside takes the message as it is; a cloud sink at the same
-- place is handed the redacted message, and then takes that.
pub visit-clouds :
    (time : ℕ → Text) (l : Logger) (level : LogLevel) (message redacted : Text) (i : ℕ)
    (e : SinkEntry) (ss : Sinks) (id : ℕ) (received : List Delivery) (done : List Effect)
    → l.redact_cloud_only ≡ true
    → text_eq redacted message ≡ false
    → e.marked_for_removal ≡ false
    → overridden l level i ≡ false
    → (visit l level message redacted i (holding e received (multi_sink ss))
        ≡ receive
            (holding e received (multi_sink ss))
            (record { name = l.name; level = level; message = message }))
      × (taken (log time (multi_sink ss) l.name level message done)
          ≡ taken done ++ map (λ id. (id, message)) (clouds (multi_sink ss)))
      × (visit l level message redacted i (holding e received (cloud_sink id))
          ≡ receive
              (holding e received (cloud_sink id))
              (record { name = l.name; level = level; message = redacted }))
      × (taken (log time (cloud_sink id) l.name level redacted done)
          ≡ taken done ++ (id, redacted) ∷ [])
unfolding holding is_cloud_sink clouds
visit-clouds time l level message redacted i e ss id received done only changed unmarked allowed = (
  visit_handed l level message redacted i (holding e received (multi_sink ss)) _ only changed
      unmarked allowed refl,
  log-taken time l.name level message (multi_sink ss) done,
  visit_handed l level message redacted i (holding e received (cloud_sink id)) _ only changed
      unmarked allowed refl,
  log-taken time l.name level redacted (cloud_sink id) done,
)
