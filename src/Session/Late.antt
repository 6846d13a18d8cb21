-- ===== src/Session/Late.antt =====
-- Late responses: those to a request whose call timed out.
use ai_arena.Prelude.{
  ap, sym, ◌∙◌, if◌then◌else◌, String, List, [], ◌∷◌, ◌++◌, Option, none, some, ◌≡◌, refl, ◌≢◌, ◌⊎◌,
  inl, inr, arith, eq_iff, lookup, lookup-insert, lookup-delete, eq_refl, Option-cases,
}
use mathlib.Core.List.{append-nil, append_assoc}
use ai_arena.Contract.{timeout, accepted}
use ai_arena.Protocol.{Response}
use ai_arena.Session.{
  Session, SessionResult, Message, Event, context_done, timer_fired, channel_closed, incoming,
  Waiting, return, continue, on_event, on_timeout, on_message, on_error, on_maybe_response,
  on_response, ignore_late, receive, late_hook,
}
use ai_arena.Session.Calls.{Step-cases}

-- The session remembers that a request timed out.
abbrev pub IsLate : String → Session → Type 0
IsLate id s = lookup id s.late_ids ≡ some tt

-- A message that holds a response and no error.
abbrev pub Holds : Message → Response → Type 0
Holds m resp = (m.runtime_error ≡ "") × (m.error ≡ none) × (m.response ≡ some resp)

-- What the result of a call that returns says of the responses that it put aside.
abbrev pub Reports : List String → SessionResult → Type 0
Reports ids r =
    (r.status ≡ accepted → (more : List String) × (r.ignored_late_response_ids ≡ ids ++ more))
    × (r.failure_reason ≡ timeout → r.ignored_late_response_ids ≡ [])

on_response-Reports :
    (id : String) (resp : Response) (w : Waiting) (r : SessionResult) (w' : Waiting)
    → on_response id resp w ≡ return r w'
    → (r.status ≡ accepted → r.ignored_late_response_ids ≡ w.ignored)
      × (r.failure_reason ≡ timeout → r.ignored_late_response_ids ≡ [])
unfolding on_response
on_response-Reports id resp w r w' h = (λ a. ground (arith, h, a), λ t. ground (arith, h, t))

on_event-Reports :
    (id : String) (e : Event) (w : Waiting) (r : SessionResult) (w' : Waiting)
    → on_event id e w ≡ return r w'
    → (r.status ≡ accepted → r.ignored_late_response_ids ≡ w.ignored)
      × (r.failure_reason ≡ timeout → r.ignored_late_response_ids ≡ [])
unfolding on_event on_timeout on_message on_error on_maybe_response
on_event-Reports id context_done w r w' h = (λ a. ground (arith, h, a), λ t. ground (arith, h))
on_event-Reports id timer_fired w r w' h = (λ a. ground (arith, h, a), λ t. ground (arith, h))
on_event-Reports id channel_closed w r w' h = (λ a. ground (arith, h, a), λ t. ground (arith, h))
on_event-Reports id (incoming m) w r w' h = elim (Option-cases m.response) [
  | inl e ↦ (λ a. ground (arith, h, a, e), λ t. ground (arith, h, t, e))
  | inr (resp, e) ↦ (
    λ a. ground (arith, h, a, e, on_response-Reports id resp w r w'),
    λ t. ground (arith, h, t, e, on_response-Reports id resp w r w'),
  )
]

on_event_ignored :
    (id : String) (e : Event) (w w' : Waiting)
    → on_event id e w ≡ continue w'
    → (more : List String) × (w'.ignored ≡ w.ignored ++ more)
unfolding on_event on_timeout on_message on_error on_maybe_response on_response ignore_late
on_event_ignored id context_done w w' h = ground arith
on_event_ignored id timer_fired w w' h = ground arith
on_event_ignored id channel_closed w w' h = ground arith
on_event_ignored id (incoming m) w w' h = elim (Option-cases m.response) [
  | inl e ↦ ([], ground (arith, h, e, append-nil w.ignored))
  | inr (resp, e) ↦ (resp.id ∷ [], ground (arith, h, e))
]

receive-Reports :
    (id : String) (es : List Event) (w : Waiting) (r : SessionResult) (w' : Waiting)
    → receive id es w ≡ some (r, w')
    → Reports w.ignored r
unfolding receive
receive-Reports id [] w r w' h = cc
receive-Reports id (e ∷ es) w r w' h = elim (Step-cases (on_event id e w)) [
  | inl (r1, w1, e1) ↦
      let (named, none_named) = on_event-Reports id e w r w' (ground (arith, h, e1)) in
      (λ a. ([], named a ∙ sym (append-nil w.ignored)), none_named)
  | inr (w1, e1) ↦
      let (named, none_named) = receive-Reports id es w1 r w' (ground (arith, h, e1)) in
      let (first, grown) = on_event_ignored id e w w1 e1 in
      (
        λ a.
            let (more, all) = named a in
            (first ++ more, all ∙ ap (λ l. l ++ more) grown ∙ append_assoc w.ignored first more),
        none_named,
      )
]

-- While a request's call waits, a response to an earlier request that timed out is put aside: it
-- neither answers nor fails the call, its id is added to the ignored ids of the call and told to the
-- hook if there is one, and it is forgotten, so that a second response of that id is no longer put
-- aside. When the call then returns, a result that is accepted names the ignored ids so far and that
-- id, and one that timed out names none.
pub late_response_ignored :
    (id : String) (m : Message) (resp : Response) (es : List Event) (w : Waiting)
    → Holds m resp
    → IsLate resp.id w.session
    → (w' : Waiting) × (receive id (incoming m ∷ es) w ≡ receive id es w')
      × (w'.ignored ≡ w.ignored ++ resp.id ∷ [])
      × (w'.hooks ≡ (if w.session.on_late then w.hooks ++ late_hook resp.id ∷ [] else w.hooks))
      × (lookup resp.id w'.session.late_ids ≡ none)
      × ((j : String) → j ≢ resp.id → lookup j w'.session.late_ids ≡ lookup j w.session.late_ids)
      × ((r : SessionResult) (last : Waiting)
          → receive id (incoming m ∷ es) w ≡ some (r, last)
          → Reports (w.ignored ++ resp.id ∷ []) r)
unfolding receive on_event on_message on_error on_maybe_response ignore_late
late_response_ignored id m resp es w h late =
    let put_aside : receive id (incoming m ∷ es) w ≡ receive id es (ignore_late resp.id w) =
      ground (arith, eq_iff m.runtime_error "") in
    (
      ignore_late resp.id w,
      put_aside,
      refl,
      refl,
      ground (arith, lookup-delete resp.id resp.id w.session.late_ids, eq_iff resp.id resp.id),
      (λ j ne. ground (arith, lookup-delete resp.id j w.session.late_ids, eq_iff resp.id j)),
      λ r last e. receive-Reports id es (ignore_late resp.id w) r last (sym put_aside ∙ e),
    )

-- How a call changes the late ids: a timeout adds the request's id, and nothing else is added.
pub record Remembers (id : String) (s : Session) (r : SessionResult) (t : Session) : Type 0 where
  pub timed_out : r.failure_reason ≡ timeout → IsLate id t
  pub nothing_else :
      (j : String) → IsLate j t → IsLate j s ⊎ ((j ≡ id) × (r.failure_reason ≡ timeout))

on_response_session :
    (id : String) (resp : Response) (w : Waiting) (r : SessionResult) (w' : Waiting)
    → on_response id resp w ≡ return r w'
    → (w'.session ≡ w.session) × (r.failure_reason ≢ timeout)
unfolding on_response
on_response_session id resp w r w' h = ground arith

on_maybe_response_session :
    (id : String) (m : Option Response) (w : Waiting) (r : SessionResult) (w' : Waiting)
    → on_maybe_response id m w ≡ return r w'
    → (w'.session ≡ w.session) × (r.failure_reason ≢ timeout)
unfolding on_maybe_response
on_maybe_response_session id none w r w' h = ground arith
on_maybe_response_session id (some resp) w r w' h =
    ground (arith, on_response_session id resp w r w')

on_message_session :
    (id : String) (m : Message) (w : Waiting) (r : SessionResult) (w' : Waiting)
    → on_message id m w ≡ return r w'
    → (w'.session ≡ w.session) × (r.failure_reason ≢ timeout)
unfolding on_message on_error
on_message_session id m w r w' h = ground (arith, on_maybe_response_session id m.response w r w')

on_timeout-Remembers :
    (id : String) (w : Waiting) (r : SessionResult) (w' : Waiting)
    → on_timeout id w ≡ return r w'
    → Remembers id w.session r w'.session
unfolding on_timeout
on_timeout-Remembers id w r w' h = record {
  timed_out = λ _. ground (arith, lookup-insert id id tt w.session.late_ids, eq_refl id);
  nothing_else = λ j late. ground (arith, lookup-insert id j tt w.session.late_ids, eq_iff id j);
}

on_event-Remembers :
    (id : String) (e : Event) (w : Waiting) (r : SessionResult) (w' : Waiting)
    → on_event id e w ≡ return r w'
    → Remembers id w.session r w'.session
unfolding on_event
on_event-Remembers id context_done w r w' h = on_timeout-Remembers id w r w' h
on_event-Remembers id timer_fired w r w' h = on_timeout-Remembers id w r w' h
on_event-Remembers id channel_closed w r w' h = record {
  timed_out = λ t. ground arith;
  nothing_else = λ j late. inl (ground arith);
}
on_event-Remembers id (incoming m) w r w' h =
    let (same, other) = on_message_session id m w r w' h in
    record { timed_out = λ t. absurd (other t); nothing_else = λ j late. inl (ground arith) }

on_message_shrinks :
    (id : String) (m : Message) (w w' : Waiting) (j : String)
    → on_message id m w ≡ continue w'
    → IsLate j w'.session
    → IsLate j w.session
unfolding on_message on_error on_maybe_response on_response ignore_late
on_message_shrinks id m w w' j h late = elim (Option-cases m.response) [
  | inl e ↦ ground arith
  | inr (resp, e) ↦ ground (arith, lookup-delete resp.id j w.session.late_ids)
]

on_event_shrinks :
    (id : String) (e : Event) (w w' : Waiting) (j : String)
    → on_event id e w ≡ continue w'
    → IsLate j w'.session
    → IsLate j w.session
unfolding on_event on_timeout
on_event_shrinks id context_done w w' j h late = ground arith
on_event_shrinks id timer_fired w w' j h late = ground arith
on_event_shrinks id channel_closed w w' j h late = ground arith
on_event_shrinks id (incoming m) w w' j h late = on_message_shrinks id m w w' j h late

-- A call that ends by its deadline or its context leaves the request's id marked as late, and no
-- call marks any other id, nor its own for another reason.
pub receive-Remembers :
    (id : String) (es : List Event) (w : Waiting) (r : SessionResult) (w' : Waiting)
    → receive id es w ≡ some (r, w')
    → Remembers id w.session r w'.session
unfolding receive
receive-Remembers id [] w r w' h = cc
receive-Remembers id (e ∷ es) w r w' h = elim (Step-cases (on_event id e w)) [
  | inl (r1, w1, e1) ↦ on_event-Remembers id e w r w' (ground (arith, h, e1))
  | inr (w1, e1) ↦
      let later = receive-Remembers id es w1 r w' (ground (arith, h, e1)) in
      record {
        timed_out = later.timed_out;
        nothing_else = λ j late. elim (later.nothing_else j late) [
          | inl before ↦ inl (on_event_shrinks id e w w1 j e1 before)
          | inr self ↦ inr self
        ];
      }
]
