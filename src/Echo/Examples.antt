-- ===== src/Echo/Examples.antt =====
-- Echo matches on concrete input.
use ai_arena.Prelude.{
  ◌≤◌, subst, sym, ℕ, String, Bool, true, false, List, [], ◌∷◌, some, ◌≡◌, refl, ◌≢◌, ◌⊎◌, arith,
  eq_iff, length, ok, All, map, ◌+◌, lookup, insert,
}
use ai_arena.Prelude.Int.{pos, lt_int, same_int}
use ai_arena.Json.{Json, text, no_bytes, value, number, object, field, end}
use ai_arena.Contract.{
  DecisionStep, Snapshot, simultaneous, Player, ActionStatus, accepted, is_accepted, no_reason,
  decision_of, reason_of,
}
use mathlib.Core.List.{Perm}
use ai_arena.Standings.Sorting.{IsSorted}
use ai_arena.Standings.Places.{better_than}
use ai_arena.Match.{Event}
use ai_arena.Match.Payloads.{encode_action_status, decision_text, reason_text}
use ai_arena.Protocol.Wire.{omit_raw, omit_text}
use ai_arena.Echo.Data.{
  Config, Master, select_ruleset, selection_for, count_from, expected_order,
  expected_for_resolved_count, assign_players, new, no_action_of,
}
use ai_arena.Echo.Steps.{
  apply_step, advance, mark, mark_all, score_in, ranked_players, result, decode_echo, expected_now,
  request_for, normalize_action,
}
use ai_arena.Echo.Snapshots.{ids_of, replay_events}
use ai_arena.Echo.Replays.{snapshot_from_history}
use ai_arena.Echo.History.{Records, Told, nothing, status, another, IsKnown, replay_events-mark_all}
use ai_arena.Echo.Restoring.{play, IsOf, snapshot_from_history-play}
use ai_arena.Echo.Expected.{IsTurn, expected_for_resolved_count-new}
use ai_arena.Echo.Normal.{normalize_action-request_for, refused}
use ai_arena.Echo.Places.{higher, player_order, result_standing}

abbrev ann : Player
ann = record { player_id = "ann"; ai_id = "a" }

abbrev bob : Player
bob = record { player_id = "bob"; ai_id = "b" }

abbrev config : Config
config = record {
  game_id = "";
  game_version = "2.0.0";
  ruleset_name = "phase2-simultaneous-2turn";
  rng_seed = "";
  players = ann ∷ bob ∷ [];
}

abbrev never : String → ℕ → ℕ → Bool
never seed a b = false

abbrev start : Master
start = record {
  meta = record {
    game_id = "echo-count";
    game_version = "2.0.0";
    ruleset_version = "phase2-simultaneous-2turn";
  };
  players = ann ∷ bob ∷ [];
  player_ids = "ann" ∷ "bob" ∷ [];
  mode = simultaneous;
  turns = 2;
  deadline = pos 100000000;
  rng_seed = "";
  seed_aware = false;
  order = 1 ∷ 2 ∷ [];
  resolved = 0;
  next_player = 0;
  score = ("ann", pos 0) ∷ ("bob", pos 0) ∷ [];
  last_action = ("ann", no_action_of "ann") ∷ ("bob", no_action_of "bob") ∷ [];
}

starts : new never config ≡ ok start
unfolding new selection_for select_ruleset expected_order count_from assign_players insert
starts = refl

abbrev echo_of : String → ℕ → ActionStatus
echo_of id n = record {
  player_id = id;
  action_status = accepted;
  failure_reason = no_reason;
  action = value (object (field "echo" (number (pos n)) end));
}

abbrev written : ActionStatus → Json
written s = object (
    field "player_id" (text s.player_id) (
      field "action_status" (text "accepted")
        (field "action" (object (field "echo" (number (pos 1)) end)) end)))

abbrev event_of : ℕ → ActionStatus → Event
event_of n s = record {
  seq = pos n;
  kind = "turn_result";
  turn = pos 1;
  player_id = s.player_id;
  payload = value (written s);
}

abbrev request_event : Event
request_event = record {
  seq = pos 1;
  kind = "turn_requested";
  turn = pos 1;
  player_id = "ann";
  payload = no_bytes;
}

abbrev history : List Event
history = request_event ∷ event_of 2 (echo_of "ann" 1) ∷ event_of 3 (echo_of "bob" 1) ∷ []

abbrev round_1 : List ActionStatus
round_1 = echo_of "ann" 1 ∷ echo_of "bob" 1 ∷ []

Records-ann : Records (pos 1) (event_of 2 (echo_of "ann" 1)) (echo_of "ann" 1)
unfolding same_int lt_int encode_action_status omit_raw omit_text decision_of decision_text
    reason_of reason_text
Records-ann = record {
  counted = refl;
  player = refl;
  written = (written (echo_of "ann" 1), refl, refl);
  plain = (refl, refl);
  named = ground (arith, eq_iff "ann" "");
}

Records-bob : Records (pos 1) (event_of 3 (echo_of "bob" 1)) (echo_of "bob" 1)
unfolding same_int lt_int encode_action_status omit_raw omit_text decision_of decision_text
    reason_of reason_text
Records-bob = record {
  counted = refl;
  player = refl;
  written = (written (echo_of "bob" 1), refl, refl);
  plain = (refl, refl);
  named = ground (arith, eq_iff "bob" "");
}

history-Told : Told (pos 1) history round_1
unfolding same_int lt_int
history-Told = another refl (status Records-ann (status Records-bob nothing))

known : All (IsKnown start.last_action) round_1
unfolding lookup
known = ((no_action_of "ann", refl), ((no_action_of "bob", refl), tt))

replay_events-mark_all_example :
    replay_events (pos 1) (record { score = start.score; last_action = start.last_action }) history
    ≡ ok (mark_all (record { score = start.score; last_action = start.last_action }) round_1)
replay_events-mark_all_example =
    replay_events-mark_all (pos 1) (record { score = start.score; last_action = start.last_action })
      history round_1 history-Told known

abbrev one_step : List (DecisionStep × List ActionStatus)
one_step = (record { turn = pos 1; mode = simultaneous; requests = [] }, round_1) ∷ []

one_step_resolves :
    ((play start one_step).resolved ≡ 1) × ((play start one_step).resolved ≤ start.turns)
unfolding play apply_step advance mark_all mark
one_step_resolves = (refl, omega arith)

snapshot_from_history-play_example :
    (s : Snapshot) × (snapshot_from_history never config history
        (pos (play start one_step).resolved)
      ≡ ok s)
    × IsOf (play start one_step) s
snapshot_from_history-play_example =
    snapshot_from_history-play never config start one_step history starts one_step_resolves.1
      (subst (λ n. Told (pos n) history round_1) (sym one_step_resolves.0) history-Told) known

expected_for_resolved_count-new_example :
    Perm start.order (count_from 2 1)
    × (length start.order ≡ 2)
    × ((resolved : ℕ) → IsTurn 2 (expected_for_resolved_count start.order resolved))
expected_for_resolved_count-new_example = expected_for_resolved_count-new never config start starts

normalize_action-request_for_example :
    ((is_accepted (echo_of "ann" 1).action_status ≡ false)
      × (normalize_action start (request_for start ann) (echo_of "ann" 1)
          ≡ record (echo_of "ann" 1) { action = no_bytes }))
    ⊎ (((is_accepted (echo_of "ann" 1).action_status ≡ true)
          × (decode_echo (echo_of "ann" 1).action ≡ some (pos (expected_now start)))
          × (normalize_action start (request_for start ann) (echo_of "ann" 1) ≡ echo_of "ann" 1))
        ⊎ ((is_accepted (echo_of "ann" 1).action_status ≡ true)
            × (decode_echo (echo_of "ann" 1).action ≢ some (pos (expected_now start)))
            × (normalize_action start (request_for start ann) (echo_of "ann" 1) ≡ refused "ann")))
normalize_action-request_for_example = normalize_action-request_for start ann (echo_of "ann" 1)

result_standing_example :
    (result start
      ≡ map
          (λ id. record {
            player_id = id;
            place = pos (
                better_than
                  (score_in start.score)
                  higher
                  (score_in start.score id)
                  (ids_of start.players)
                + 1);
          })
          (ranked_players start))
    × Perm (ranked_players start) (ids_of start.players)
    × IsSorted (player_order start).lt (ranked_players start)
result_standing_example = result_standing start
