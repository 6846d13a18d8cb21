-- ===== src/Session/Examples.antt =====
-- Calls on concrete events.
use ai_arena.Prelude.{
  String, true, false, List, [], ◌∷◌, none, some, ◌≡◌, ◌≢◌, refl, lookup, delete,
}
use ai_arena.Json.{value, text}
use ai_arena.Contract.{accepted, no_reason}
use ai_arena.Protocol.{nil_params, Response, match_response_id, marshal_params, new_request}
use ai_arena.Session.{
  Session, SessionResult, Request, Message, Event, timer_fired, incoming, Waiting, waiting,
  on_event, receive, call, late_hook, on_message, on_error, on_maybe_response, on_response,
  ignore_late,
}
use ai_arena.Session.Calls.{IsConsistent, Answers, call-IsConsistent, call_accepted, call_total}
use ai_arena.Session.Late.{late_response_ignored, Reports, receive-Remembers, Remembers}

abbrev request : Request
request = record { id = "turn-2"; method = "turn"; params = nil_params }

abbrev answer : String → Response
answer id = record { jsonrpc = "2.0"; id = id; result = value (text "rock"); error = none }

abbrev message : String → Message
message id = record { response = some (answer id); error = none; runtime_error = "" }

-- The request "turn-1" has timed out.
abbrev session : Session
session = record { late_ids = ("turn-1", tt) ∷ []; on_late = true; on_malformed = false }

abbrev events : List Event
events = incoming (message "turn-1") ∷ incoming (message "turn-2") ∷ []

abbrev taken : SessionResult
taken = record {
  status = accepted;
  failure_reason = no_reason;
  payload = value (text "rock");
  ignored_late_response_ids = "turn-1" ∷ [];
  runtime_error = "";
}

abbrev left : Waiting
left = record {
  session = record { late_ids = []; on_late = true; on_malformed = false };
  ignored = "turn-1" ∷ [];
  hooks = late_hook "turn-1" ∷ [];
}

call_runs : call session request false events ≡ some (taken, left)
unfolding call new_request marshal_params receive on_event on_message on_error on_maybe_response
    on_response ignore_late match_response_id lookup delete
call_runs = refl

receive_runs : receive "turn-2" events (waiting session) ≡ some (taken, left)
unfolding receive on_event on_message on_error on_maybe_response on_response ignore_late
    match_response_id lookup delete
receive_runs = refl

call_accepted_example : Answers "turn-2" (value (text "rock")) events × (false ≡ false)
call_accepted_example = call_accepted session request false events taken left call_runs refl

call-IsConsistent_example : IsConsistent taken
call-IsConsistent_example = call-IsConsistent session request false events taken left call_runs

call_total_example :
    (r : SessionResult) × (w : Waiting) × (call session request false
        (incoming (message "turn-1") ∷ timer_fired ∷ [])
      ≡ some (r, w))
call_total_example =
    call_total session request false (incoming (message "turn-1") ∷ timer_fired ∷ []) tt

late_response_ignored_example :
    (w' : Waiting) × (receive "turn-2" events (waiting session)
      ≡ receive "turn-2" (incoming (message "turn-2") ∷ []) w')
    × (w'.ignored ≡ "turn-1" ∷ [])
    × (w'.hooks ≡ late_hook "turn-1" ∷ [])
    × (lookup "turn-1" w'.session.late_ids ≡ none)
    × ((j : String) → j ≢ "turn-1" → lookup j w'.session.late_ids ≡ lookup j session.late_ids)
    × ((r : SessionResult) (last : Waiting)
        → receive "turn-2" events (waiting session) ≡ some (r, last)
        → Reports ("turn-1" ∷ []) r)
unfolding lookup
late_response_ignored_example =
    late_response_ignored "turn-2" (message "turn-1") (answer "turn-1")
      (incoming (message "turn-2") ∷ []) (waiting session) (refl, refl, refl) refl

receive-Remembers_example : Remembers "turn-2" session taken left.session
receive-Remembers_example =
    receive-Remembers "turn-2" events (waiting session) taken left receive_runs
