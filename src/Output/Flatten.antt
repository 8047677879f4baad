-- ===== src/Output/Flatten.antt =====
-- What `MultiSink` of include/Zyrnix/sinks/multi_sink.hpp does with sinks inside sinks.
use zyrnix.Prelude.{ℕ, ◌≡◌, refl, sym, ap, ◌∙◌, List, [], ◌∷◌, ◌++◌, append_assoc, append-nil, Text}
use zyrnix.Level.{LogLevel}
use zyrnix.Output.{
  Sink, Sinks, nil, cons, null_sink, stdout_sink, udp_sink, syslog_sink, cloud_sink, multi_sink,
  add_sink, Effect, log, log_each,
}

-- The sinks that are no multi sinks, from left to right.
unfoldable mutual
  pub leaves : Sink → List Sink
  leaves null_sink = null_sink ∷ []
  leaves stdout_sink = stdout_sink ∷ []
  leaves (udp_sink u) = udp_sink u ∷ []
  leaves (syslog_sink ident) = syslog_sink ident ∷ []
  leaves (cloud_sink id) = cloud_sink id ∷ []
  leaves (multi_sink ss) = leaves_each ss

  pub leaves_each : Sinks → List Sink
  leaves_each nil = []
  leaves_each (cons s ss) = leaves s ++ leaves_each ss

pub leaves_each-add_sink :
    (ss : Sinks) (s : Sink) → leaves_each (add_sink ss s) ≡ leaves_each ss ++ leaves s
unfolding leaves_each add_sink
leaves_each-add_sink nil s = append-nil (leaves s)
leaves_each-add_sink (cons t ts) s =
    ap (λ l. leaves t ++ l) (leaves_each-add_sink ts s)
    ∙ sym (append_assoc (leaves t) (leaves_each ts) (leaves s))

module _ (time : ℕ → Text) (name : Text) (level : LogLevel) (message : Text) where
  -- One sink after the other.
  unfoldable pub log_list : List Sink → List Effect → List Effect
  log_list [] done = done
  log_list (s ∷ ss) done = log_list ss (log time s name level message done)

  log_list-append :
      (ss ts : List Sink) (done : List Effect)
      → log_list (ss ++ ts) done ≡ log_list ts (log_list ss done)
  unfolding log_list
  log_list-append [] ts done = refl
  log_list-append (s ∷ ss) ts done = log_list-append ss ts (log time s name level message done)

  mutual
    unfolding log leaves log_each leaves_each log_list

    pub log-leaves :
        (s : Sink) (done : List Effect)
        → log time s name level message done ≡ log_list (leaves s) done
    log-leaves null_sink done = refl
    log-leaves stdout_sink done = refl
    log-leaves (udp_sink u) done = refl
    log-leaves (syslog_sink ident) done = refl
    log-leaves (cloud_sink id) done = refl
    log-leaves (multi_sink ss) done = log_each-leaves_each ss done

    pub log_each-leaves_each :
        (ss : Sinks) (done : List Effect)
        → log_each time ss name level message done ≡ log_list (leaves_each ss) done
    log_each-leaves_each nil done = refl
    log_each-leaves_each (cons s ss) done =
        log_each-leaves_each ss (log time s name level message done)
        ∙ ap (log_list (leaves_each ss)) (log-leaves s done)
        ∙ sym (log_list-append (leaves s) (leaves_each ss) done)

-- A multi sink to which a sink was added does what the sinks in it and in the new one do that are no
-- multi sinks, each once, from left to right and the new ones last.
pub log-add_sink :
    (time : ℕ → Text) (name : Text) (level : LogLevel) (message : Text) (ss : Sinks) (s : Sink)
    (done : List Effect)
    → log time (multi_sink (add_sink ss s)) name level message done
      ≡ log_list time name level message (leaves_each ss ++ leaves s) done
unfolding leaves
log-add_sink time name level message ss s done =
    log-leaves time name level message (multi_sink (add_sink ss s)) done
    ∙ ap (λ l. log_list time name level message l done) (leaves_each-add_sink ss s)
