-- ===== src/Protocol/Wire.antt =====
-- gamemaster/protocol.go: how the encoder writes the envelopes, by their JSON tags, and that the
-- decoder reads them back. `none` is an envelope that json.Marshal refuses.
use ai_arena.Prelude.{
  String, true, Option, none, some, ◌is◌, if◌then◌else◌, ok, ◌≡◌, refl, arith, eq_iff,
}
use ai_arena.Json.{
  RawMessage, no_bytes, malformed_bytes, value, text, number, object, Fields, end, field,
  struct_fields, text_field, raw_field, same_name, assign_text,
}
use ai_arena.Protocol.{
  Request, Response, ErrorObject, validate_request, validate_response, decode_request_line,
  decode_response_line, error_field, code_field, fits_int, assign_error, assign_code,
}

-- A string field with omitempty.
unfoldable pub omit_text : String → String → Fields → Fields
omit_text name t fs = if t is "" then fs else field name (text t) fs

-- A json.RawMessage field with omitempty.
unfoldable pub omit_raw : String → RawMessage → Fields → Option Fields
omit_raw name no_bytes fs = some fs
omit_raw name malformed_bytes fs = none
omit_raw name (value j) fs = some (field name j fs)

unfoldable pub encode_request : Request → Option RawMessage
encode_request r = elim (omit_raw "params" r.params end) [
  | none ↦ none
  | some fs ↦ some (
      value (
        object (
          field "jsonrpc" (text r.jsonrpc)
            (omit_text "id" r.id (field "method" (text r.method) fs)))))
]

unfoldable pub omit_error : Option ErrorObject → Fields
omit_error none = end
omit_error (some e) =
    field "error" (object (field "code" (number e.code) (field "message" (text e.message) end))) end

unfoldable pub encode_response : Response → Option RawMessage
encode_response r = elim (omit_raw "result" r.result (omit_error r.error)) [
  | none ↦ none
  | some fs ↦ some (value (object (field "jsonrpc" (text r.jsonrpc) (field "id" (text r.id) fs))))
]

request_line :
    (r : Request) (p : RawMessage) (line : RawMessage)
    → r.params ≡ p
    → validate_request r ≡ ok tt
    → encode_request r ≡ some line
    → decode_request_line line ≡ ok r
unfolding encode_request omit_raw omit_text decode_request_line struct_fields text_field raw_field
    same_name assign_text validate_request
request_line r no_bytes line e v h = ground (arith, eq_iff r.id "")
request_line r malformed_bytes line e v h = ground arith
request_line r (value j) line e v h = ground (arith, eq_iff r.id "")

-- A request that passes the validation is read back from the line that it is written as, whatever
-- its id and its params.
pub decode_request_line-encode_request :
    (r : Request) (line : RawMessage)
    → validate_request r ≡ ok tt
    → encode_request r ≡ some line
    → decode_request_line line ≡ ok r
decode_request_line-encode_request r line v h = request_line r r.params line refl v h

-- The code of an error fits the int of the program.
abbrev pub CodeFits : Option ErrorObject → Type 0
CodeFits none = Unit {0}
CodeFits (some e) = fits_int e.code ≡ true

response_line :
    (r : Response) (p : RawMessage) (x : Option ErrorObject) (line : RawMessage)
    → r.result ≡ p
    → r.error ≡ x
    → CodeFits x
    → validate_response r ≡ ok tt
    → encode_response r ≡ some line
    → decode_response_line line ≡ ok r
unfolding encode_response omit_raw omit_error decode_response_line struct_fields text_field
    raw_field error_field code_field assign_error assign_code same_name assign_text
    validate_response
response_line r no_bytes none line e f c v h = ground arith
response_line r no_bytes (some x) line e f c v h = ground (arith, c)
response_line r malformed_bytes x line e f c v h = ground arith
response_line r (value j) none line e f c v h = ground arith
response_line r (value j) (some x) line e f c v h = ground arith

-- A response that passes the validation, whose error code fits a 64-bit int, is read back from the
-- line that it is written as.
pub decode_response_line-encode_response :
    (r : Response) (line : RawMessage)
    → CodeFits r.error
    → validate_response r ≡ ok tt
    → encode_response r ≡ some line
    → decode_response_line line ≡ ok r
decode_response_line-encode_response r line c v h =
    response_line r r.result r.error line refl refl c v h
