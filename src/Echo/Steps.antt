-- ===== src/Echo/Steps.antt =====
-- internal/games/echo/echo.go: the steps of a match, and its result.
use ai_arena.Prelude.{
  ℕ, ◌+◌, String, Bool, true, List, [], ◌∷◌, map, Option, none, some, if◌then◌else◌, Dict,
  lookup_or, insert, length, leb, get_elem?, Result, ok, err, text_lt,
}
use ai_arena.Prelude.Int.{ℤ, pos, is_positive, lt_int, same_int, add_one}
use ai_arena.Json.{
  RawMessage, no_bytes, value, number, text, object, array, end, field, nil, cons, struct_fields,
  map_fields,
}
use ai_arena.Json.Numbers.{int_field, ints_field}
use ai_arena.Contract.{
  Player, DecisionMode, sequential, simultaneous, DecisionRequest, DecisionStep, ActionStatus,
  no_action, illegal_action, is_accepted, Placement,
}
use ai_arena.Standings.Sorting.{sort_slice}
use ai_arena.Standings.Places.{places_from}
use ai_arena.Echo.Data.{
  Master, EchoError, unsupported_mode, no_such_player, expected_for_resolved_count,
}

abbrev pub legal_action_hint : RawMessage
legal_action_hint =
    value (
      object (field "required" (array (cons (text "echo") nil)) (field "type" (text "object") end)))

-- currentVisibleState(turn, expected), with a score.
unfoldable pub visible_raw : ℕ → ℕ → Dict ℤ → RawMessage
visible_raw turn expected score = value (
    object (
      field "turn" (number (pos turn)) (
        field "expected" (number (pos expected))
          (field "score" (object (map_fields number score)) end))))

unfoldable pub expected_now : Master → ℕ
unfolding expected_for_resolved_count
expected_now m = expected_for_resolved_count m.order m.resolved

unfoldable pub request_for : Master → Player → DecisionRequest
unfolding visible_raw expected_now
request_for m player = record {
  player_id = player.player_id;
  visible_state = visible_raw (m.resolved + 1) (expected_now m) m.score;
  legal_action_hint = legal_action_hint;
  deadline = m.deadline;
}

-- The step of a mode. There is always a player whose turn it is.
unfoldable pub step_in : Master → DecisionMode → Result EchoError DecisionStep
unfolding request_for
step_in m simultaneous = ok (record {
  turn = pos (m.resolved + 1);
  mode = simultaneous;
  requests = map (request_for m) m.players;
})
step_in m sequential = elim (get_elem? m.players m.next_player) [
  | none ↦ err no_such_player
  | some player ↦ ok (record {
    turn = pos (m.resolved + 1);
    mode = sequential;
    requests = request_for m player ∷ [];
  })
]
step_in m _ = err unsupported_mode

unfoldable pub next_step : Master → Result EchoError (Option DecisionStep)
unfolding step_in
next_step m =
    if leb m.turns m.resolved
    then ok none
    else elim (step_in m m.mode) [ err e ↦ err e | ok step ↦ ok (some step) ]

-- json.Unmarshal into `visibleState`, and its `expected`.
unfoldable pub decode_expected : RawMessage → Option ℤ
decode_expected raw = elim (struct_fields raw) [
  | none ↦ none
  | some fs ↦
      let (turn, fine) = int_field "turn" (pos 0, true) fs in
      let (expected, good) = int_field "expected" (pos 0, fine) fs in
      let (score, well) = ints_field "score" ([], good) fs in if well then some expected else none
]

unfoldable pub expected_for_turn : Master → DecisionRequest → ℤ
unfolding decode_expected expected_now
expected_for_turn m req = elim (decode_expected req.visible_state) [
  | none ↦ pos (expected_now m)
  | some expected ↦ if is_positive expected then expected else pos (expected_now m)
]

-- json.Unmarshal into `action`.
unfoldable pub decode_echo : RawMessage → Option ℤ
decode_echo raw = elim (struct_fields raw) [
  | none ↦ none
  | some fs ↦
      let (echo, fine) = int_field "echo" (pos 0, true) fs in if fine then some echo else none
]

abbrev pub illegal : String → ActionStatus
illegal player_id = record {
  player_id = player_id;
  action_status = no_action;
  failure_reason = illegal_action;
  action = no_bytes;
}

unfoldable pub normalize_action : Master → DecisionRequest → ActionStatus → ActionStatus
unfolding decode_echo expected_for_turn same_int
normalize_action m req status =
    if is_accepted status.action_status
    then elim (decode_echo status.action) [
      | none ↦ illegal req.player_id
      | some echo ↦
          if same_int echo (expected_for_turn m req) then status else illegal req.player_id
    ]
    else record status { action = no_bytes }

-- The maps of the state that ApplyStep fills.
pub record Marks : Type 0 where
  pub score : Dict ℤ
  pub last_action : Dict ActionStatus

unfoldable pub mark : Marks → ActionStatus → Marks
unfolding add_one
mark b s = record {
  last_action = insert s.player_id s b.last_action;
  score =
      if is_accepted s.action_status
      then insert s.player_id (add_one (lookup_or (pos 0) s.player_id b.score)) b.score
      else b.score;
}

unfoldable pub mark_all : Marks → List ActionStatus → Marks
unfolding mark
mark_all b [] = b
mark_all b (s ∷ ss) = mark_all (mark b s) ss

abbrev pub marks_of : Master → Marks
marks_of m = record { score = m.score; last_action = m.last_action }

abbrev pub with_marks : Master → Marks → Master
with_marks m b = record m { score = b.score; last_action = b.last_action }

unfoldable pub advance : DecisionMode → Master → Result EchoError (Unit {0}) × Master
advance simultaneous m = (ok tt, record m { resolved = m.resolved + 1 })
advance sequential m = (
  ok tt,
  if leb (length m.players) (m.next_player + 1)
      then record m { next_player = 0; resolved = m.resolved + 1 }
      else record m { next_player = m.next_player + 1 },
)
advance _ m = (err unsupported_mode, m)

-- The statuses are counted also when the mode is then refused.
unfoldable pub apply_step :
    Master → DecisionStep → List ActionStatus → Result EchoError (Unit {0}) × Master
unfolding mark_all advance
apply_step m step statuses = advance step.mode (with_marks m (mark_all (marks_of m) statuses))

abbrev pub score_in : Dict ℤ → String → ℤ
score_in score id = lookup_or (pos 0) id score

unfoldable pub comes_before : Dict ℤ → String → String → Bool
unfolding lt_int same_int
comes_before score a b =
    if same_int (score_in score a) (score_in score b)
    then text_lt a b
    else lt_int (score_in score b) (score_in score a)

unfoldable pub ranked_players : Master → List String
unfolding comes_before sort_slice
ranked_players m = sort_slice (comes_before m.score) (map (λ p. p.player_id) m.players)

unfoldable pub result : Master → List Placement
unfolding ranked_players same_int places_from
result m =
    map (λ p. record { player_id = p.0; place = pos p.1 })
      (places_from (score_in m.score) same_int 0 0 (pos 0) (ranked_players m))
