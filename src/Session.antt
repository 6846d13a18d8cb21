-- ===== src/Session.antt =====
-- internal/platform/session/session.go: one player's request and response over a transport. The
-- events of a call are what its select receives, in order.
pub mod Calls
pub mod Late
pub mod Examples
use ai_arena.Prelude.{
  ℕ, String, Bool, true, false, List, [], ◌∷◌, ◌++◌, Option, none, some, ◌is◌, if◌then◌else◌, Dict,
  lookup, insert, delete, Result, ok, err,
}
use ai_arena.Json.{RawMessage, no_bytes}
use ai_arena.Contract.{
  ActionDecision, accepted, no_action, FailureReason, no_reason, timeout, malformed, mismatched_id,
  runtime_stop,
}
use ai_arena.Protocol.{Params, ProtocolError, Response, new_request, match_response_id, has_error}

-- runtime.Message of internal/platform/runtime/runtime.go.
pub record Message : Type 0 where
  pub response : Option Response
  pub error : Option ProtocolError
  pub runtime_error : String

pub record Request : Type 0 where
  pub id : String
  pub method : String
  pub params : Params

pub record SessionResult : Type 0 where
  pub status : ActionDecision
  pub failure_reason : FailureReason
  pub payload : RawMessage
  pub ignored_late_response_ids : List String
  pub runtime_error : String

-- A session, with which of its hooks are set.
pub record Session : Type 0 where
  pub late_ids : Dict (Unit {0})
  pub on_late : Bool
  pub on_malformed : Bool

unfoldable pub new : Session
new = record { late_ids = []; on_late = false; on_malformed = false }

unfoldable pub set_late_response_hook : Session → Session
set_late_response_hook s = record s { on_late = true }

unfoldable pub set_malformed_hook : Session → Session
set_malformed_hook s = record s { on_malformed = true }

pub data HookCall : Type 0 where
  late_hook : String → HookCall
  malformed_hook : ProtocolError → HookCall

pub data Event : Type 0 where
  context_done timer_fired channel_closed : Event
  incoming : Message → Event

-- The state of the loop of `call`.
pub record Waiting : Type 0 where
  pub session : Session
  pub ignored : List String
  pub hooks : List HookCall

pub data Step : Type 0 where
  return : SessionResult → Waiting → Step
  continue : Waiting → Step

abbrev pub refusal : FailureReason → SessionResult
refusal reason = record {
  status = no_action;
  failure_reason = reason;
  payload = no_bytes;
  ignored_late_response_ids = [];
  runtime_error = "";
}

on_timeout : String → Waiting → Step
on_timeout id w =
    return (refusal timeout)
      (record w { session = record (w.session) { late_ids = insert id tt w.session.late_ids } })

-- A response that is not late.
on_response : String → Response → Waiting → Step
unfolding match_response_id
on_response id resp w = elim (match_response_id id resp) [
  | some ProtocolError.mismatched_id ↦ return (refusal mismatched_id) w
  | some _ ↦ return (refusal malformed) w
  | none ↦
      if has_error resp.error
      then return (record (refusal malformed) { ignored_late_response_ids = w.ignored }) w
      else return
          (record {
            status = accepted;
            failure_reason = no_reason;
            payload = resp.result;
            ignored_late_response_ids = w.ignored;
            runtime_error = "";
          })
          w
]

ignore_late : String → Waiting → Waiting
ignore_late late w = record {
  session = record (w.session) { late_ids = delete late w.session.late_ids };
  ignored = w.ignored ++ late ∷ [];
  hooks = if w.session.on_late then w.hooks ++ late_hook late ∷ [] else w.hooks;
}

on_maybe_response : String → Option Response → Waiting → Step
unfolding on_response ignore_late
on_maybe_response id none w = continue w
on_maybe_response id (some resp) w = elim (lookup resp.id w.session.late_ids) [
  | some _ ↦ continue (ignore_late resp.id w)
  | none ↦ on_response id resp w
]

on_error : String → Message → Waiting → Option ProtocolError → Step
unfolding on_maybe_response
on_error id m w (some e) =
    return (refusal malformed)
      (if w.session.on_malformed then record w { hooks = w.hooks ++ malformed_hook e ∷ [] } else w)
on_error id m w none = on_maybe_response id m.response w

on_message : String → Message → Waiting → Step
unfolding on_error
on_message id m w =
    if m.runtime_error is ""
    then on_error id m w m.error
    else return (record (refusal runtime_stop) { runtime_error = m.runtime_error }) w

-- One round of the select.
unfoldable pub on_event : String → Event → Waiting → Step
unfolding on_timeout on_message
on_event id context_done w = on_timeout id w
on_event id timer_fired w = on_timeout id w
on_event id channel_closed w = return (refusal runtime_stop) w
on_event id (incoming m) w = on_message id m w

-- `none` is a call that waits for more events.
unfoldable pub receive : String → List Event → Waiting → Option (SessionResult × Waiting)
receive id [] w = none
receive id (e ∷ es) w = elim (on_event id e w) [
  | return r w' ↦ some (r, w')
  | continue w' ↦ receive id es w'
]

abbrev pub waiting : Session → Waiting
waiting s = record { session = s; ignored = []; hooks = [] }

-- `send_fails` is the outcome of the transport's Send.
unfoldable pub call : Session → Request → Bool → List Event → Option (SessionResult × Waiting)
unfolding receive new_request
call s req send_fails es = elim (new_request req.id req.method req.params) [
  | err _ ↦ some (refusal malformed, waiting s)
  | ok _ ↦
      if send_fails then some (refusal runtime_stop, waiting s) else receive req.id es (waiting s)
]
