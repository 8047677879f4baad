-- ===== src/Json.antt =====
-- `StructuredJsonSink` of src/sinks/structured_json_sink.cpp and `StructuredLogger` of
-- src/structured_logger.cpp. The text of the time is an argument, as is the order in which the
-- unordered map of the thread's context is walked. A file is the list of its lines. `char` is
-- signed, as on the platforms that the build files name: a byte from 128 on is a negative number.
pub mod Reader
pub mod RoundTrip
pub mod Wide
mod Tests
use zyrnix.Prelude.{
  ℕ, ◌+◌, ◌/◌, ◌%◌, Bool, true, false, ◌||◌, List, [], ◌∷◌, ◌++◌, if◌then◌else◌, ltb, leb, ◌==◌,
  Text, codes, Dict, insert,
}
use zyrnix.Level.{LogLevel, to_string, trace, debug, info, warn, error, critical}

-- A hexadecimal digit of `std::hex`.
unfoldable pub hex_digit : ℕ → ℕ
hex_digit n = if ltb n 10 then 48 + n else 87 + n

-- "\u" and `(int)c` with `std::setw(4)`: a negative number has eight digits.
unfoldable pub unicode : ℕ → Text
unicode c =
    codes "\\u"
    ++ ((if ltb c 128 then codes "00" else codes "ffffff")
        ++ hex_digit (c / 16) ∷ hex_digit (c % 16) ∷ [])

unfoldable pub escape_char : ℕ → Text
escape_char c =
    if c == 34
    then codes "\\\""
    else if c == 92
    then codes "\\\\"
    else if c == 8
    then codes "\\b"
    else if c == 12
    then codes "\\f"
    else if c == 10
    then codes "\\n"
    else if c == 13
    then codes "\\r"
    else if c == 9
    then codes "\\t"
    else if ltb c 32 || leb 128 c
    then unicode c
    else c ∷ []

unfoldable pub escape_json_string : Text → Text
escape_json_string [] = []
escape_json_string (c ∷ str) = escape_char c ++ escape_json_string str

-- The loop over a map: each entry after a comma.
unfoldable pub json_members : List (Text × Text) → Text → Text
json_members [] rest = rest
json_members ((key, value) ∷ fields) rest =
    codes ",\""
    ++ (escape_json_string key
        ++ (codes "\":\""
            ++ (escape_json_string value ++ (codes "\"" ++ json_members fields rest))))

unfoldable pub build_json :
    Dict Text → List (Text × Text) → Text → Text → LogLevel → Text → List (Text × Text) → Text
build_json global_context thread_context timestamp logger_name level message fields =
    codes "{\"timestamp\":\""
    ++ (timestamp
        ++ (codes "\",\"level\":\""
            ++ (to_string level
                ++ (codes "\",\"logger\":\""
                    ++ (escape_json_string logger_name
                        ++ (codes "\",\"message\":\""
                            ++ (escape_json_string message
                                ++ (codes "\""
                                    ++ json_members global_context (
                                        json_members thread_context
                                          (json_members fields (codes "}")))))))))))

pub record StructuredJsonSink : Type 0 where
  pub global_context : Dict Text
  pub file_open : Bool
  pub lines : List Text

unfoldable pub log_with_fields :
    StructuredJsonSink
    → List (Text × Text)
    → Text
    → Text
    → LogLevel
    → Text
    → List (Text × Text)
    → StructuredJsonSink
log_with_fields s thread_context timestamp logger_name level message fields =
    if s.file_open
    then record s {
      lines =
          s.lines
          ++ build_json s.global_context thread_context timestamp logger_name level message fields
            ∷ [];
    }
    else s

-- `StructuredJsonSink::log`.
unfoldable pub log :
    StructuredJsonSink → List (Text × Text) → Text → Text → LogLevel → Text → StructuredJsonSink
unfolding log_with_fields
log s thread_context timestamp logger_name level message =
    log_with_fields s thread_context timestamp logger_name level message []

unfoldable pub set_context : StructuredJsonSink → Text → Text → StructuredJsonSink
set_context s key value = record s { global_context = insert key value s.global_context }

unfoldable pub clear_context : StructuredJsonSink → StructuredJsonSink
clear_context s = record s { global_context = [] }

-- A structured logger owns its sink; of its logger only the name is read.
pub record StructuredLogger : Type 0 where
  pub name : Text
  pub json_sink : StructuredJsonSink

unfoldable pub set_logger_context : StructuredLogger → Text → Text → StructuredLogger
set_logger_context l key value = record l { json_sink = set_context l.json_sink key value }

unfoldable pub clear_logger_context : StructuredLogger → StructuredLogger
clear_logger_context l = record l { json_sink = clear_context l.json_sink }

-- The six methods named for the levels.
unfoldable pub log_at :
    LogLevel
    → StructuredLogger
    → List (Text × Text)
    → Text
    → Text
    → List (Text × Text)
    → StructuredLogger
log_at level l thread_context timestamp message fields = record l {
  json_sink = log_with_fields l.json_sink thread_context timestamp l.name level message fields;
}
