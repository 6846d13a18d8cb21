-- ===== src/Session/Calls.antt =====
-- What a call of a session returns.
use ai_arena.Prelude.{
  String, Bool, true, false, List, [], ◌∷◌, Option, none, some, ◌≡◌, refl, ◌∙◌, ◌≢◌, ◌⊎◌, inl, inr,
  arith, eq_iff,
}
use ai_arena.Json.{RawMessage, no_bytes}
use ai_arena.Contract.{accepted, no_action, no_reason, malformed, runtime_stop}
use ai_arena.Protocol.{Params, nil_params, encoded, unencodable, marshal_params, Response}
use ai_arena.Session.{
  Session, SessionResult, Request, Message, Event, context_done, timer_fired, channel_closed,
  incoming, Waiting, waiting, Step, return, continue, on_event, on_timeout, on_message, on_error,
  on_maybe_response, on_response, receive, call, refusal,
}

-- Accepted without a reason, or refused with a reason and without a payload.
abbrev pub IsConsistent : SessionResult → Type 0
IsConsistent r =
    (r.status ≡ accepted) × (r.failure_reason ≡ no_reason)
    ⊎ (r.status ≡ no_action) × (r.failure_reason ≢ no_reason) × (r.payload ≡ no_bytes)

on_response-IsConsistent :
    (id : String) (resp : Response) (w : Waiting) (r : SessionResult) (w' : Waiting)
    → on_response id resp w ≡ return r w'
    → IsConsistent r
unfolding on_response
on_response-IsConsistent id resp w r w' h = ground arith

on_maybe_response-IsConsistent :
    (id : String) (m : Option Response) (w : Waiting) (r : SessionResult) (w' : Waiting)
    → on_maybe_response id m w ≡ return r w'
    → IsConsistent r
unfolding on_maybe_response
on_maybe_response-IsConsistent id none w r w' h = cc
on_maybe_response-IsConsistent id (some resp) w r w' h =
    ground (arith, on_response-IsConsistent id resp w r w')

on_event-IsConsistent :
    (id : String) (e : Event) (w : Waiting) (r : SessionResult) (w' : Waiting)
    → on_event id e w ≡ return r w'
    → IsConsistent r
unfolding on_timeout on_message on_error on_event
on_event-IsConsistent id context_done w r w' h = ground arith
on_event-IsConsistent id timer_fired w r w' h = ground arith
on_event-IsConsistent id channel_closed w r w' h = ground arith
on_event-IsConsistent id (incoming m) w r w' h =
    ground (arith, on_maybe_response-IsConsistent id m.response w r w')

pub Step-cases :
    (s : Step)
    → ((r : SessionResult) × (w : Waiting) × (s ≡ return r w)) ⊎ ((w : Waiting) × (s ≡ continue w))
Step-cases (return r w) = inl (r, w, refl)
Step-cases (continue w) = inr (w, refl)

receive-IsConsistent :
    (id : String) (es : List Event) (w : Waiting) (r : SessionResult) (w' : Waiting)
    → receive id es w ≡ some (r, w')
    → IsConsistent r
unfolding receive
receive-IsConsistent id [] w r w' h = cc
receive-IsConsistent id (e ∷ es) w r w' h = elim (Step-cases (on_event id e w)) [
  | inl (r1, w1, e1) ↦ on_event-IsConsistent id e w r w' (ground (arith, h, e1))
  | inr (w1, e1) ↦ receive-IsConsistent id es w1 r w' (ground (arith, h, e1))
]

-- Whatever the events, a call that returns either accepts, with no failure reason, or takes no
-- action, with a failure reason and no payload.
pub call-IsConsistent :
    (s : Session) (req : Request) (send_fails : Bool) (es : List Event) (r : SessionResult)
    (w : Waiting)
    → call s req send_fails es ≡ some (r, w)
    → IsConsistent r
unfolding call marshal_params
call-IsConsistent s req send_fails es r w h =
    ground (arith, receive-IsConsistent req.id es (waiting s) r w)

-- A response of the request's id, without an error and with this payload, is among the events.
pub data Answers (id : String) (payload : RawMessage) : List Event → Type 0 where
  here :
      {es : List Event} (m : Message) (resp : Response)
      → m.response ≡ some resp
      → resp.id ≡ id
      → resp.error ≡ none
      → resp.result ≡ payload
      → Answers id payload (incoming m ∷ es)
  there : {e : Event} {es : List Event} → Answers id payload es → Answers id payload (e ∷ es)

abbrev AnsweredBy : String → RawMessage → Event → Type 0
AnsweredBy id payload context_done = ⊥
AnsweredBy id payload timer_fired = ⊥
AnsweredBy id payload channel_closed = ⊥
AnsweredBy id payload (incoming m) =
    (resp : Response) × (m.response ≡ some resp)
    × (resp.id ≡ id)
    × (resp.error ≡ none)
    × (resp.result ≡ payload)

on_response_accepted :
    (id : String) (resp : Response) (w : Waiting) (r : SessionResult) (w' : Waiting)
    → on_response id resp w ≡ return r w'
    → r.status ≡ accepted
    → (resp.id ≡ id) × (resp.error ≡ none) × (resp.result ≡ r.payload)
unfolding on_response
on_response_accepted id resp w r w' h a = ground (arith, eq_iff id resp.id)

on_message_accepted :
    (id : String) (m : Message) (w : Waiting) (r : SessionResult) (w' : Waiting)
    → on_message id m w ≡ return r w'
    → r.status ≡ accepted
    → on_maybe_response id m.response w ≡ return r w'
unfolding on_message on_error
on_message_accepted id m w r w' h a = ground arith

on_maybe_response_accepted :
    (id : String) (m : Option Response) (w : Waiting) (r : SessionResult) (w' : Waiting)
    → on_maybe_response id m w ≡ return r w'
    → r.status ≡ accepted
    → (resp : Response) × (m ≡ some resp)
      × (resp.id ≡ id)
      × (resp.error ≡ none)
      × (resp.result ≡ r.payload)
unfolding on_maybe_response
on_maybe_response_accepted id none w r w' h a = cc
on_maybe_response_accepted id (some resp) w r w' h a =
    let (x, y, z) = on_response_accepted id resp w r w' (ground arith) a in (resp, refl, x, y, z)

on_event_accepted :
    (id : String) (e : Event) (w : Waiting) (r : SessionResult) (w' : Waiting)
    → on_event id e w ≡ return r w'
    → r.status ≡ accepted
    → AnsweredBy id r.payload e
unfolding on_event on_timeout
on_event_accepted id context_done w r w' h a = ground arith
on_event_accepted id timer_fired w r w' h a = ground arith
on_event_accepted id channel_closed w r w' h a = ground arith
on_event_accepted id (incoming m) w r w' h a =
    on_maybe_response_accepted id m.response w r w' (on_message_accepted id m w r w' h a) a

Answers-here :
    (id : String) (payload : RawMessage) (e : Event) (es : List Event)
    → AnsweredBy id payload e
    → Answers id payload (e ∷ es)
Answers-here id payload context_done es h = absurd h
Answers-here id payload timer_fired es h = absurd h
Answers-here id payload channel_closed es h = absurd h
Answers-here id payload (incoming m) es (resp, a, b, c, d) = here m resp a b c d

receive_accepted :
    (id : String) (es : List Event) (w : Waiting) (r : SessionResult) (w' : Waiting)
    → receive id es w ≡ some (r, w')
    → r.status ≡ accepted
    → Answers id r.payload es
unfolding receive
receive_accepted id [] w r w' h a = cc
receive_accepted id (e ∷ es) w r w' h a = elim (Step-cases (on_event id e w)) [
  | inl (r1, w1, e1) ↦
      Answers-here id r.payload e es (on_event_accepted id e w r w' (ground (arith, h, e1)) a)
  | inr (w1, e1) ↦ there (receive_accepted id es w1 r w' (ground (arith, h, e1)) a)
]

-- A call accepts a payload only if some incoming response bears the id of the request, carries that
-- payload and no error; and the message was then sent.
pub call_accepted :
    (s : Session) (req : Request) (send_fails : Bool) (es : List Event) (r : SessionResult)
    (w : Waiting)
    → call s req send_fails es ≡ some (r, w)
    → r.status ≡ accepted
    → Answers req.id r.payload es × (send_fails ≡ false)
unfolding call marshal_params
call_accepted s req send_fails es r w h a =
    ground (arith, receive_accepted req.id es (waiting s) r w)

-- The deadline passes at some point of the events.
abbrev pub TimerFires : List Event → Type 0
TimerFires [] = ⊥
TimerFires (timer_fired ∷ es) = Unit {0}
TimerFires (_ ∷ es) = TimerFires es

after_event :
    (id : String) (e : Event) (es : List Event) (w w1 : Waiting)
    → on_event id e w ≡ continue w1
    → receive id (e ∷ es) w ≡ receive id es w1
unfolding receive
after_event id e es w w1 h = rw (h, receive)

TimerFires-tail :
    (id : String) (e : Event) (es : List Event) (w w1 : Waiting)
    → on_event id e w ≡ continue w1
    → TimerFires (e ∷ es)
    → TimerFires es
unfolding on_event on_timeout
TimerFires-tail id context_done es w w1 h t = t
TimerFires-tail id timer_fired es w w1 h t = ground arith
TimerFires-tail id channel_closed es w w1 h t = t
TimerFires-tail id (incoming m) es w w1 h t = t

receive_total :
    (id : String) (es : List Event) (w : Waiting)
    → TimerFires es
    → (r : SessionResult) × (w' : Waiting) × (receive id es w ≡ some (r, w'))
unfolding receive
receive_total id [] w h = absurd h
receive_total id (e ∷ es) w h = elim (Step-cases (on_event id e w)) [
  | inl (r1, w1, e1) ↦ (r1, w1, rw (e1, receive))
  | inr (w1, e1) ↦
      let (r, w', q) = receive_total id es w1 (TimerFires-tail id e es w w1 e1 h) in
      (r, w', after_event id e es w w1 e1 ∙ q)
]

receive_total_call :
    (s : Session) (req : Request) (es : List Event) (p : Params)
    → req.params ≡ p
    → TimerFires es
    → (r : SessionResult) × (w : Waiting) × (call s req false es ≡ some (r, w))
unfolding call marshal_params
receive_total_call s req es nil_params e h =
    let (r, w, q) = receive_total req.id es (waiting s) h in (r, w, ground arith)
receive_total_call s req es (encoded j) e h =
    let (r, w, q) = receive_total req.id es (waiting s) h in (r, w, ground arith)
receive_total_call s req es unencodable e h = (refusal malformed, waiting s, ground arith)

send_failure :
    (s : Session) (req : Request) (es : List Event) (p : Params)
    → req.params ≡ p
    → (r : SessionResult) × (w : Waiting) × (call s req true es ≡ some (r, w))
unfolding call marshal_params
send_failure s req es nil_params e = (refusal runtime_stop, waiting s, ground arith)
send_failure s req es (encoded j) e = (refusal runtime_stop, waiting s, ground arith)
send_failure s req es unencodable e = (refusal malformed, waiting s, ground arith)

-- A call whose deadline timer fires returns: it never waits for ever.
pub call_total :
    (s : Session) (req : Request) (send_fails : Bool) (es : List Event)
    → TimerFires es
    → (r : SessionResult) × (w : Waiting) × (call s req send_fails es ≡ some (r, w))
call_total s req true es h = send_failure s req es req.params refl
call_total s req false es h = receive_total_call s req es req.params refl h
