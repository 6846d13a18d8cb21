-- ===== src/Match/Tellings.antt =====
-- internal/platform/match/match.go with internal/games/echo/echo.go: the log of a runner tells a game
-- that replays it the statuses of its steps.
use ai_arena.Prelude.{
  String, true, false, List, [], ◌∷◌, ◌++◌, some, ◌is◌, ◌≡◌, ◌≢◌, refl, arith, Bool-cases, insert,
  inl, inr,
}
use ai_arena.Prelude.Int.{ℤ, pos, same_int, lt_int}
use ai_arena.Json.{Json}
use ai_arena.Contract.{ActionStatus, DecisionRequest, FailureReason}
use ai_arena.Session.{SessionResult}
use ai_arena.Match.{Event}
use ai_arena.Match.Payloads.{encode_action_status}
use ai_arena.Match.World.{World, Runner}
use ai_arena.Match.Events.{
  Payload, text_payload, must_marshal_payload, append_event, append_runtime_exited,
  diagnostic_payload, append_runtime_diagnostic,
}
use ai_arena.Match.Turns.{
  TurnExecution, status_payload, append_late, append_turn_result, record_turn,
}
use ai_arena.Echo.Snapshots.{is_turn_end}
use ai_arena.Echo.History.{Told, IsPlain, Records}

Told-another :
    {target : ℤ} {es : List Event} {ss : List ActionStatus} (e : Event)
    → is_turn_end e.kind ≡ false
    → Told target es ss
    → Told target (es ++ e ∷ []) ss
Told-another e n Told.nothing = Told.another (ground (arith, n)) Told.nothing
Told-another e n (Told.status r t) = Told.status r (Told-another e n t)
Told-another e n (Told.another q t) = Told.another q (Told-another e n t)

Told-status :
    {target : ℤ} {es : List Event} {ss : List ActionStatus} {e : Event} {s : ActionStatus}
    → Records target e s
    → Told target es ss
    → Told target (es ++ e ∷ []) (ss ++ s ∷ [])
Told-status r Told.nothing = Told.status r Told.nothing
Told-status r (Told.status q t) = Told.status q (Told-status r t)
Told-status r (Told.another n t) = Told.another n (Told-status r t)

-- A status of the player of a request, which its JSON gives back.
pub record IsAnswer (req : DecisionRequest) (s : ActionStatus) : Type 0 where
  pub player : req.player_id ≡ s.player_id
  pub written : (j : Json) × (encode_action_status s ≡ some j)
  pub plain : IsPlain s
  pub named : s.player_id ≢ ""

-- The requests of a step with their statuses.
pub data Answers : List DecisionRequest → List ActionStatus → Type 0 where
  no_request : Answers [] []
  answer :
      {req : DecisionRequest} {s : ActionStatus} {reqs : List DecisionRequest}
      {ss : List ActionStatus}
      → IsAnswer req s
      → Answers reqs ss
      → Answers (req ∷ reqs) (s ∷ ss)

-- A turn that the replay up to a target counts.
abbrev pub IsReplayed : ℤ → ℤ → Type 0
IsReplayed target turn = (same_int turn (pos 0) ≡ false) × (lt_int target turn ≡ false)

module _ {S E : Type 0} (w : World S E) (target turn : ℤ) where
  pub append_other :
      (kind player_id : String) (payload : Payload) (ss : List ActionStatus) (r : Runner S E)
      → is_turn_end kind ≡ false
      → Told target r.events ss
      → Told target (append_event w kind turn player_id payload r).events ss
  unfolding append_event
  append_other kind player_id payload ss r n t = Told-another _ n t

  append_late-Told :
      (player_id : String) (ids : List String) (ss : List ActionStatus) (r : Runner S E)
      → Told target r.events ss
      → Told target (append_late w turn player_id ids r).events ss
  unfolding append_late
  append_late-Told player_id [] ss r t = t
  append_late-Told player_id (id ∷ more) ss r t =
      append_late-Told player_id more ss
        (append_event w "late_response_ignored" turn player_id (text_payload "response_id" id) r)
        (append_other "late_response_ignored" player_id (text_payload "response_id" id) ss r refl t)

  append_runtime_diagnostic-Told :
      (player_id : String) (result : SessionResult) (ss : List ActionStatus) (r : Runner S E)
      → Told target r.events ss
      → Told target (append_runtime_diagnostic w turn player_id result r).events ss
  unfolding append_runtime_diagnostic
  append_runtime_diagnostic-Told player_id result ss r t =
      elim (Bool-cases (result.runtime_error is "")) [
        | inl e ↦ rw e t
        | inr e ↦ rw e (
            append_other "runtime_diagnostic" player_id
              (diagnostic_payload result (w.stderr player_id r.world)) ss r refl t)
      ]

  append_status :
      (kind : String) (req : DecisionRequest) (s : ActionStatus) (ss : List ActionStatus)
      (r : Runner S E)
      → IsReplayed target turn
      → is_turn_end kind ≡ true
      → IsAnswer req s
      → Told target r.events ss
      → Told target
          (append_event w kind turn req.player_id (status_payload s) r).events
          (ss ++ s ∷ [])
  unfolding append_event must_marshal_payload
  append_status kind req s ss r c k a t =
      let (j, written) = a.written in
      Told-status
        (record {
          counted = ground (arith, c.0, c.1, k);
          player = a.player;
          written = (j, written, rw written refl);
          plain = a.plain;
          named = a.named;
        })
        t

  append_turn_result-Told :
      (x : TurnExecution E) (reason : FailureReason) (ss : List ActionStatus) (r : Runner S E)
      → IsReplayed target turn
      → IsAnswer x.request x.action_status
      → Told target r.events ss
      → Told target (append_turn_result w turn x reason r).events (ss ++ x.action_status ∷ [])
  unfolding append_turn_result append_runtime_exited
  append_turn_result-Told x FailureReason.no_reason ss r c a t =
      append_status "turn_result" x.request x.action_status ss r c refl a t
  append_turn_result-Told x FailureReason.timeout ss r c a t =
      append_status "turn_timeout" x.request x.action_status ss r c refl a t
  append_turn_result-Told x FailureReason.runtime_stop ss r c a t =
      append_status "runtime_exited" x.request x.action_status ss
        (append_runtime_diagnostic w turn x.request.player_id x.result r) c refl a
        (append_runtime_diagnostic-Told x.request.player_id x.result ss r t)
  append_turn_result-Told x _ ss r c a t =
      append_status "protocol_error" x.request x.action_status ss r c refl a t

  pub record_turn-Told :
      (x : TurnExecution E) (ss : List ActionStatus) (r : Runner S E)
      → IsReplayed target turn
      → IsAnswer x.request x.action_status
      → Told target r.events ss
      → Told target (record_turn w turn x r).events (ss ++ x.action_status ∷ [])
  unfolding record_turn
  record_turn-Told x ss r c a t =
      let seen = record r {
        last_result = insert x.request.player_id x.action_status r.last_result;
      } in
      let late = x.result.ignored_late_response_ids in
      append_turn_result-Told x x.result.failure_reason ss
        (append_late w turn x.request.player_id late seen) c a
        (append_late-Told x.request.player_id late ss seen t)
