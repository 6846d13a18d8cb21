-- ===== src/Protocol/Examples.antt =====
-- The lines of concrete envelopes.
use ai_arena.Prelude.{some, ok, ◌≡◌, refl}
use ai_arena.Prelude.Int.{pos}
use ai_arena.Json.{RawMessage, no_bytes, value, null, text, number, object, end, field}
use ai_arena.Protocol.{
  Request, Response, validate_request, validate_response, decode_request_line, decode_response_line,
}
use ai_arena.Protocol.Wire.{
  encode_request, encode_response, omit_raw, omit_text, omit_error,
  decode_request_line-encode_request, decode_response_line-encode_response,
}

abbrev request : Request
request = record { jsonrpc = "2.0"; id = ""; method = "turn"; params = value null }

abbrev request_bytes : RawMessage
request_bytes =
    value (
      object
        (field "jsonrpc" (text "2.0") (field "method" (text "turn") (field "params" null end))))

request_written : encode_request request ≡ some request_bytes
unfolding encode_request omit_raw omit_text
request_written = refl

request_valid : validate_request request ≡ ok tt
unfolding validate_request
request_valid = refl

decode_request_line-encode_request_example : decode_request_line request_bytes ≡ ok request
decode_request_line-encode_request_example =
    decode_request_line-encode_request request request_bytes request_valid request_written

abbrev failure : Response
failure = record {
  jsonrpc = "2.0";
  id = "turn-1";
  result = no_bytes;
  error = some (record { code = pos 7; message = "no" });
}

abbrev failure_bytes : RawMessage
failure_bytes = value (
    object (
      field "jsonrpc" (text "2.0") (
        field "id" (text "turn-1") (
          field "error" (object (field "code" (number (pos 7)) (field "message" (text "no") end)))
            end))))

failure_written : encode_response failure ≡ some failure_bytes
unfolding encode_response omit_raw omit_error
failure_written = refl

failure_valid : validate_response failure ≡ ok tt
unfolding validate_response
failure_valid = refl

decode_response_line-encode_response_example : decode_response_line failure_bytes ≡ ok failure
decode_response_line-encode_response_example =
    decode_response_line-encode_response failure failure_bytes refl failure_valid failure_written
