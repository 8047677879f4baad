-- ===== src/Cloud/CloudWatch.antt =====
-- `CloudWatchSink`: its events and its requests, and `HttpClient::post` as it is built with
-- libcurl. What libcurl does is a parameter: `perform n url body headers` is the status of the
-- answer to the request of number `n`, `none` if there is no answer.
use zyrnix.Prelude.{
  ℕ, Bool, true, false, ◌&&◌, Option, none, some, List, [], ◌∷◌, ◌++◌, ◌==◌, Text, codes, decimal,
}
use zyrnix.Level.{LogLevel}
use zyrnix.Files.{format}
use zyrnix.Cloud.{CloudSink, enqueue}

-- `HttpClient::Response` without the body.
pub record Response : Type 0 where
  pub status_code : ℕ
  pub success : Bool

unfoldable pub post : Option ℕ → Response
post none = record { status_code = 0; success = false }
post (some status) = record { status_code = status; success = true }

pub record LogEvent : Type 0 where
  pub message : Text
  pub timestamp_ms : ℕ

-- `log`; `time` is the text of the time in the formatted line.
unfoldable pub log : CloudSink LogEvent → Text → ℕ → Text → LogLevel → Text → CloudSink LogEvent
log s time timestamp_ms name level message =
    enqueue s (record { message = format time name level message; timestamp_ms = timestamp_ms })

unfoldable pub event_json : LogEvent → Text
event_json e =
    codes "{\"timestamp\":"
    ++ (decimal e.timestamp_ms ++ (codes ",\"message\":\"" ++ (e.message ++ codes "\"}")))

unfoldable pub events_json : List LogEvent → Text
events_json [] = []
events_json (e ∷ es) =
    let rest = events_json es in
    elim es [ [] ↦ event_json e | f ∷ fs ↦ event_json e ++ (codes "," ++ rest) ]

unfoldable pub create_request_body : Text → Text → List LogEvent → Text
create_request_body log_group_name log_stream_name events =
    codes "{\"logGroupName\":\""
    ++ (log_group_name
        ++ (codes "\",\"logStreamName\":\""
            ++ (log_stream_name
                ++ (codes "\",\"logEvents\":[" ++ (events_json events ++ codes "]}")))))

module _ (perform : ℕ → Text → Text → List (Text × Text) → Option ℕ) where
  -- The request of number `n`, for events that are not empty.
  unfoldable pub send_to_cloudwatch : Text → Text → Text → ℕ → List LogEvent → Bool
  send_to_cloudwatch region log_group_name log_stream_name n events =
      let response = post (
        perform n (codes "https://logs." ++ (region ++ codes ".amazonaws.com/"))
          (create_request_body log_group_name log_stream_name events)
          ((codes "Content-Type", codes "application/x-amz-json-1.1")
            ∷ (codes "X-Amz-Target", codes "Logs_20140328.PutLogEvents")
            ∷ [])) in
      response.success && response.status_code == 200
