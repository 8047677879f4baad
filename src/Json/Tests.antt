-- ===== src/Json/Tests.antt =====
-- The structured sink at concrete inputs.
use zyrnix.Prelude.{◌≡◌, refl, arith, true, some, List, [], ◌∷◌, Text, codes, length, insert}
use zyrnix.Level.{warn, to_string}
use zyrnix.Json.{
  StructuredJsonSink, escape_json_string, escape_char, unicode, hex_digit, build_json, json_members,
  log_with_fields, set_context,
}
use zyrnix.Json.Reader.{object}
use zyrnix.Json.RoundTrip.{line_members, build_json-read}

abbrev user : List (Text × Text)
user = (codes "user", codes "a\"b") ∷ []

abbrev quiet : StructuredJsonSink
quiet = record { global_context = []; file_open = true; lines = [] }

written :
    (log_with_fields
      (set_context quiet (codes "app") (codes "x"))
      []
      (codes "T")
      (codes "main")
      warn
      (codes "hi\n")
      user).lines
    ≡ codes
        "{\"timestamp\":\"T\",\"level\":\"WARN\",\"logger\":\"main\",\"message\":\"hi\\n\",\"app\":\"x\",\"user\":\"a\\\"b\"}"
      ∷ []
unfolding log_with_fields set_context insert build_json json_members escape_json_string escape_char
    unicode hex_digit to_string
written = refl

build_json-read_example :
    object
      (length (line_members [] [] (codes "T") (codes "main") warn (codes "hi\n") user))
      (build_json [] [] (codes "T") (codes "main") warn (codes "hi\n") user)
    ≡ some (line_members [] [] (codes "T") (codes "main") warn (codes "hi\n") user)
unfolding escape_json_string escape_char
build_json-read_example =
    build_json-read [] [] user (codes "T") (codes "main") warn (codes "hi\n") (ground arith, refl)
      (ground arith) (ground arith) (ground arith)
