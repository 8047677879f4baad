-- ===== src/Cloud/Azure.antt =====
-- `AzureMonitorSink`: its events and its requests. Its queue, its batches and its worker are those of
-- the parent module.
use zyrnix.Prelude.{ℕ, Bool, ◌&&◌, ◌||◌, Option, List, [], ◌∷◌, ◌++◌, ◌==◌, Text, codes}
use zyrnix.Level.{LogLevel, trace, debug, info, warn, error, critical}
use zyrnix.Files.{format}
use zyrnix.Cloud
use zyrnix.Cloud.{CloudConfig, CloudSink, enqueue}
use zyrnix.Cloud.CloudWatch.{post}

pub record TelemetryEvent : Type 0 where
  pub message : Text
  pub level : Text
  pub timestamp : Text
  pub logger_name : Text

unfoldable pub level_to_severity : LogLevel → Text
level_to_severity trace = codes "Verbose"
level_to_severity debug = codes "Verbose"
level_to_severity info = codes "Information"
level_to_severity warn = codes "Warning"
level_to_severity error = codes "Error"
level_to_severity critical = codes "Critical"

-- `log`; `time` is the text of the time in the formatted line, and `timestamp` the one in UTC.
unfoldable pub log :
    CloudSink TelemetryEvent → Text → Text → Text → LogLevel → Text → CloudSink TelemetryEvent
log s time timestamp name level message = enqueue s (record {
  message = format time name level message;
  level = level_to_severity level;
  timestamp = timestamp;
  logger_name = name;
})

-- The part of an event's text that names the role.
unfoldable pub role_json : Text → Text
role_json [] = []
role_json (c ∷ cs) = codes ",\"cloud\":{\"roleName\":\"" ++ ((c ∷ cs) ++ codes "\"}")

unfoldable pub telemetry_json : Text → Text → TelemetryEvent → Text
telemetry_json instrumentation_key cloud_role_name event =
    codes "{\"name\":\"Microsoft.ApplicationInsights.Message\",\"time\":\""
    ++ (event.timestamp
        ++ (codes "\",\"iKey\":\""
            ++ (instrumentation_key
                ++ (codes
                      "\",\"data\":{\"baseType\":\"MessageData\",\"baseData\":{\"ver\":2,\"message\":\""
                    ++ (event.message
                        ++ (codes "\",\"severityLevel\":\""
                            ++ (event.level
                                ++ (codes "\"}"
                                    ++ (role_json cloud_role_name ++ codes "}}\n")))))))))

unfoldable pub create_request_body : Text → Text → List TelemetryEvent → Text
create_request_body instrumentation_key cloud_role_name [] = []
create_request_body instrumentation_key cloud_role_name (e ∷ es) =
    telemetry_json instrumentation_key cloud_role_name e
    ++ create_request_body instrumentation_key cloud_role_name es

module _ (perform : ℕ → Text → Text → List (Text × Text) → Option ℕ)
    (ingestion_endpoint instrumentation_key cloud_role_name : Text) where
  -- The request of number `n`, for events that are not empty.
  unfoldable pub send_to_azure : ℕ → List TelemetryEvent → Bool
  send_to_azure n events =
      let response = post (
        perform n ingestion_endpoint
          (create_request_body instrumentation_key cloud_role_name events)
          ((codes "Content-Type", codes "application/json")
            ∷ (codes "charset", codes "utf-8")
            ∷ [])) in
      response.success && (response.status_code == 200 || response.status_code == 206)

  -- `send_batch`, on the fuel of the loop.
  unfoldable pub send_batch :
      ℕ → CloudSink TelemetryEvent → List TelemetryEvent → Option (CloudSink TelemetryEvent)
  send_batch = Cloud.send_batch send_to_azure

  -- `worker_thread`, one move at a time.
  unfoldable pub worker_step : ℕ → CloudSink TelemetryEvent → ℕ → Option (CloudSink TelemetryEvent)
  worker_step = Cloud.worker_step send_to_azure

unfoldable pub get_stats : CloudSink TelemetryEvent → Cloud.Stats
get_stats = Cloud.get_stats
