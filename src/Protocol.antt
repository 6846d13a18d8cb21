-- ===== src/Protocol.antt =====
-- gamemaster/protocol.go (aliased by internal/platform/protocol): the JSON-RPC envelopes. A line is
-- the JSON value that it holds, without its line ends.
pub mod Wire
pub mod Examples
use ai_arena.Prelude.{
  ◌^◌, String, Bool, true, false, ◌&&◌, Option, none, some, ◌is◌, if◌then◌else◌, not, ltb, Result,
  ok, err, ◌>>=◌, ◌>>◌, refuse_if,
}
use ai_arena.Prelude.Int.{ℤ, pos, negsuc}
use ai_arena.Json.{
  Json, RawMessage, no_bytes, value, null, number, object, Fields, end, field, is_no_bytes,
  same_name, struct_fields, text_field, raw_field,
}

abbrev pub version : String
version = "2.0"

pub data ProtocolError : Type 0 where
  malformed_json mismatched_id : ProtocolError
  -- ErrInvalidEnvelope, with what is wrong.
  bad_version method_required id_required result_or_error message_required : ProtocolError
  marshal_failed : ProtocolError

pub record Request : Type 0 where
  pub jsonrpc : String
  pub id : String
  pub method : String
  pub params : RawMessage

pub record ErrorObject : Type 0 where
  pub code : ℤ
  pub message : String

pub record Response : Type 0 where
  pub jsonrpc : String
  pub id : String
  pub result : RawMessage
  pub error : Option ErrorObject

-- What json.Marshal does to an argument of type any.
pub data Params : Type 0 where
  nil_params unencodable : Params
  encoded : Json → Params

unfoldable pub marshal_params : Params → Result ProtocolError RawMessage
marshal_params nil_params = ok no_bytes
marshal_params (encoded j) = ok (value j)
marshal_params unencodable = err marshal_failed

unfoldable pub new_request : String → String → Params → Result ProtocolError Request
unfolding marshal_params
new_request id method params = do
  raw ← marshal_params params
  ok (record { jsonrpc = version; id = id; method = method; params = raw })

unfoldable pub new_notification : String → Params → Result ProtocolError Request
unfolding marshal_params
new_notification method params = do
  raw ← marshal_params params
  ok (record { jsonrpc = version; id = ""; method = method; params = raw })

unfoldable pub new_response : String → Params → Result ProtocolError Response
unfolding marshal_params
new_response id result = do
  raw ← marshal_params result
  ok (record { jsonrpc = version; id = id; result = raw; error = none })

unfoldable pub match_response_id : String → Response → Option ProtocolError
match_response_id expected resp = if expected is resp.id then none else some mismatched_id

unfoldable pub validate_request : Request → Result ProtocolError (Unit {0})
validate_request req = do
  refuse_if (not (req.jsonrpc is version)) bad_version
  refuse_if (req.method is "") method_required

abbrev pub has_result : Response → Bool
has_result resp = not (is_no_bytes resp.result)

abbrev pub has_error : Option ErrorObject → Bool
has_error none = false
has_error (some e) = true

abbrev same_bool : Bool → Bool → Bool
same_bool true b = b
same_bool false b = not b

abbrev empty_message : Option ErrorObject → Bool
empty_message none = false
empty_message (some e) = e.message is ""

unfoldable pub validate_response : Response → Result ProtocolError (Unit {0})
validate_response resp = do
  refuse_if (not (resp.jsonrpc is version)) bad_version
  refuse_if (resp.id is "") id_required
  refuse_if (same_bool (has_result resp) (has_error resp.error)) result_or_error
  refuse_if (empty_message resp.error) message_required

-- An int of Go has 64 bits.
abbrev pub fits_int : ℤ → Bool
fits_int (pos n) = ltb n (2 ^ 63)
fits_int (negsuc n) = ltb n (2 ^ 63)

assign_code : ℤ × Bool → Json → ℤ × Bool
assign_code (old, fine) (number i) = if fits_int i then (i, fine) else (old, false)
assign_code (old, fine) null = (old, fine)
assign_code (old, fine) _ = (old, false)

unfoldable pub code_field : ℤ × Bool → Fields → ℤ × Bool
unfolding same_name assign_code
code_field acc end = acc
code_field acc (field k v fs) =
    code_field (if same_name k "code" then assign_code acc v else acc) fs

abbrev error_or_new : Option ErrorObject → ErrorObject
error_or_new none = record { code = pos 0; message = "" }
error_or_new (some e) = e

-- Assignment to the pointer: null clears it, an object is decoded into what it points to.
assign_error : Option ErrorObject × Bool → Json → Option ErrorObject × Bool
unfolding code_field text_field
assign_error (old, fine) (object fs) =
    let (code, fine_code) = code_field ((error_or_new old).code, true) fs in
    let (message, fine_message) = text_field "message" ((error_or_new old).message, true) fs in
    (some (record { code = code; message = message }), fine && (fine_code && fine_message))
assign_error (old, fine) null = (none, fine)
assign_error (old, fine) _ = (old, false)

unfoldable pub error_field : Option ErrorObject × Bool → Fields → Option ErrorObject × Bool
unfolding same_name assign_error
error_field acc end = acc
error_field acc (field k v fs) =
    error_field (if same_name k "error" then assign_error acc v else acc) fs

abbrev pub or_error {ℓ} : {A : Type ℓ} → Option A → ProtocolError → Result ProtocolError A
or_error none e = err e
or_error (some a) e = ok a

unfoldable pub decode_request_line : RawMessage → Result ProtocolError Request
unfolding struct_fields text_field raw_field validate_request
decode_request_line line = do
  fs ← or_error (struct_fields line) malformed_json
  let (jsonrpc, fine_jsonrpc) = text_field "jsonrpc" ("", true) fs
  let (id, fine_id) = text_field "id" ("", true) fs
  let (method, fine_method) = text_field "method" ("", true) fs
  refuse_if (not (fine_jsonrpc && (fine_id && fine_method))) malformed_json
  let req : Request = record {
    jsonrpc = jsonrpc;
    id = id;
    method = method;
    params = raw_field "params" no_bytes fs;
  }
  validate_request req
  ok req

unfoldable pub decode_response_line : RawMessage → Result ProtocolError Response
unfolding struct_fields text_field raw_field error_field validate_response
decode_response_line line = do
  fs ← or_error (struct_fields line) malformed_json
  let (jsonrpc, fine_jsonrpc) = text_field "jsonrpc" ("", true) fs
  let (id, fine_id) = text_field "id" ("", true) fs
  let (error, fine_error) = error_field (none, true) fs
  refuse_if (not (fine_jsonrpc && (fine_id && fine_error))) malformed_json
  let resp : Response = record {
    jsonrpc = jsonrpc;
    id = id;
    result = raw_field "result" no_bytes fs;
    error = error;
  }
  validate_response resp
  ok resp
