-- ===== src/Echo/History.antt =====
-- internal/games/echo/echo.go: the replay of a history counts what the match counted.
use ai_arena.Prelude.{
  String, true, false, ◌&&◌, List, [], ◌∷◌, some, ◌is◌, ◌≡◌, refl, ap, arith, eq_iff, Dict, lookup,
  lookup-insert, ok, Bool-cases, inl, inr, ◌≢◌, is_of_ne, All,
}
use ai_arena.Prelude.Int.{ℤ}
use ai_arena.Json.{
  Json, RawMessage, no_bytes, malformed_bytes, value, struct_fields, text_field, raw_field,
  same_name, assign_text,
}
use ai_arena.Contract.{ActionStatus, ActionDecision, FailureReason, decision_of, reason_of}
use ai_arena.Protocol.Wire.{omit_raw, omit_text}
use ai_arena.Match.{Event}
use ai_arena.Match.Payloads.{encode_action_status, decision_text, reason_text}
use ai_arena.Echo.Steps.{Marks, mark, mark_all}
use ai_arena.Echo.Snapshots.{
  is_turn_end, is_counted, decode_action_status, replay_status, replay_event, replay_events,
}

-- A decision and a reason that their texts give back.
abbrev pub IsPlain : ActionStatus → Type 0
IsPlain s =
    (decision_of (decision_text s.action_status) ≡ s.action_status)
    × (reason_of (reason_text s.failure_reason) ≡ s.failure_reason)

decode-encode :
    (id : String) (d : ActionDecision) (r : FailureReason) (a : RawMessage) (j : Json)
    → decision_of (decision_text d) ≡ d
    → reason_of (reason_text r) ≡ r
    → encode_action_status
        (record { player_id = id; action_status = d; failure_reason = r; action = a })
      ≡ some j
    → decode_action_status (value j)
      ≡ some (record { player_id = id; action_status = d; failure_reason = r; action = a })
unfolding encode_action_status omit_raw omit_text decode_action_status struct_fields text_field
    raw_field same_name assign_text
decode-encode id d r no_bytes j p q e = ground (arith, p, q, eq_iff (reason_text r) "")
decode-encode id d r malformed_bytes j p q e = ground arith
decode-encode id d r (value v) j p q e = ground (arith, p, q, eq_iff (reason_text r) "")

-- The event that records a status, within the turns of a replay.
pub record Records (target : ℤ) (e : Event) (s : ActionStatus) : Type 0 where
  pub counted : (is_counted target e && is_turn_end e.kind) ≡ true
  pub player : e.player_id ≡ s.player_id
  pub written : (j : Json) × (encode_action_status s ≡ some j) × (e.payload ≡ value j)
  pub plain : IsPlain s
  pub named : s.player_id ≢ ""

-- The statuses that the events of a log tell, in their order; other events lie between.
pub data Told (target : ℤ) : List Event → List ActionStatus → Type 0 where
  nothing : Told target [] []
  status :
      {e : Event} {s : ActionStatus} {es : List Event} {ss : List ActionStatus}
      → Records target e s
      → Told target es ss
      → Told target (e ∷ es) (s ∷ ss)
  another :
      {e : Event} {es : List Event} {ss : List ActionStatus}
      → (is_counted target e && is_turn_end e.kind) ≡ false
      → Told target es ss
      → Told target (e ∷ es) ss

abbrev pub IsKnown : Dict ActionStatus → ActionStatus → Type 0
IsKnown actions s = (known : ActionStatus) × (lookup s.player_id actions ≡ some known)

replay_status-mark :
    (b : Marks) (s : ActionStatus) → s.player_id ≢ "" → replay_status b s.player_id s ≡ mark b s
unfolding replay_status mark
replay_status-mark b s n = rw (is_of_ne s.player_id "" n)

replay_event-Records :
    (target : ℤ) (b : Marks) (e : Event) (s : ActionStatus)
    → Records target e s
    → IsKnown b.last_action s
    → replay_event target b e ≡ ok (mark b s)
unfolding replay_event
replay_event-Records target b e s r (known, k) =
    let (j, written, payload) = r.written in
    let decoded : decode_action_status (value j) ≡ some s =
      decode-encode s.player_id s.action_status s.failure_reason s.action j r.plain.0 r.plain.1
        written in
    rw (r.counted, payload, decoded, r.player, k, r.player) (ap ok (replay_status-mark b s r.named))

-- A known player stays known.
IsKnown-mark :
    (b : Marks) (s t : ActionStatus) → IsKnown b.last_action t → IsKnown (mark b s).last_action t
unfolding mark
IsKnown-mark b s t (known, k) = elim (Bool-cases (s.player_id is t.player_id)) [
  | inl e ↦ (s, ground (arith, lookup-insert s.player_id t.player_id s b.last_action, e))
  | inr n ↦ (known, ground (arith, lookup-insert s.player_id t.player_id s b.last_action, n, k))
]

All-IsKnown-mark :
    (b : Marks) (s : ActionStatus) (ss : List ActionStatus)
    → All (IsKnown b.last_action) ss
    → All (IsKnown (mark b s).last_action) ss
All-IsKnown-mark b s [] a = tt
All-IsKnown-mark b s (t ∷ ts) a = (IsKnown-mark b s t a.0, All-IsKnown-mark b s ts a.1)

-- A log that tells statuses of known players, each written by the platform as the payload of the
-- event that ends its turn, replays up to a turn without an error to the scores and last actions
-- that ApplyStep makes of the same statuses in the same order, whatever other events lie between.
pub replay_events-mark_all :
    (target : ℤ) (b : Marks) (es : List Event) (ss : List ActionStatus)
    → Told target es ss
    → All (IsKnown b.last_action) ss
    → replay_events target b es ≡ ok (mark_all b ss)
unfolding replay_events mark_all
replay_events-mark_all target b es ss nothing a = refl
replay_events-mark_all target b (e ∷ es) (s ∷ ss) (status r t) a =
    rw (replay_event-Records target b e s r a.0)
      (replay_events-mark_all target (mark b s) es ss t (All-IsKnown-mark b s ss a.1))
replay_events-mark_all target b (e ∷ es) ss (another n t) a =
    let skipped : replay_event target b e ≡ ok b = rw (n, replay_event) in
    rw skipped (replay_events-mark_all target b es ss t a)
