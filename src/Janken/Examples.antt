-- ===== src/Janken/Examples.antt =====
-- Matches on concrete input.
use ai_arena.Prelude.{
  ◌+◌, ◌≤◌, String, List, [], ◌∷◌, none, some, ◌≡◌, refl, ◌↔◌, inl, arith, eq_iff, lookup,
  lookup_or, insert, ok, map, Distinct, contains,
}
use ai_arena.Prelude.Int.{pos}
use ai_arena.Json.{value, text, no_bytes, struct_fields, text_field, same_name, assign_text}
use ai_arena.Contract.{
  Player, ActionStatus, DecisionRequest, DecisionStep, simultaneous, accepted, no_action, no_reason,
  timeout,
}
use ai_arena.Contract.Check.{validate_action_status}
use ai_arena.Janken.Data.{
  Config, Master, zero_score, new, metadata_for_selection, give_each, no_action_of, ids_of,
}
use ai_arena.Janken.Rules.{is_playable_action, resolve_valid_outcomes}
use ai_arena.Janken.Master.{
  encode_action, next_step, apply_step, commit_round, tally_of, normalize_action, played, playable,
  decode_action,
}
use ai_arena.Janken.Outcomes.{resolve_valid_outcomes_lem}
use ai_arena.Janken.Tallying.{status_ids}
use ai_arena.Janken.RoundResult.{apply_step_results}
use ai_arena.Janken.Rounds.{IsBalanced, new-IsBalanced, apply_step-IsBalanced}
use ai_arena.Janken.Matches.{play, bounded, play_completes}
use mathlib.Core.List.{Perm}
use ai_arena.Standings.Sorting.{IsSorted}
use ai_arena.Standings.Places.{better_than}
use ai_arena.Janken.Placing.{score_of, ordered, result}
use ai_arena.Janken.Places.{score_order, player_order, result_places}
use ai_arena.Janken.Normal.{normalize_action_idem, normalize_action_valid}

abbrev ann : Player
ann = record { player_id = "ann"; ai_id = "a" }

abbrev bob : Player
bob = record { player_id = "bob"; ai_id = "b" }

abbrev config : Config
config = record { game_version = "2.1.0"; ruleset_name = "regular"; players = ann ∷ bob ∷ [] }

abbrev start : Master
start = record {
  meta = record { game_id = "janken"; game_version = "2.1.0"; ruleset_version = "regular" };
  players = ann ∷ bob ∷ [];
  player_ids = "ann" ∷ "bob" ∷ [];
  rounds = 5;
  deadline = pos 100000000;
  resolved = 0;
  scores = ("ann", zero_score) ∷ ("bob", zero_score) ∷ [];
  self_history = ("ann", []) ∷ ("bob", []) ∷ [];
  public_history = [];
  last_action = ("ann", no_action_of "ann") ∷ ("bob", no_action_of "bob") ∷ [];
}

abbrev rock_by : String → ActionStatus
rock_by id = record {
  player_id = id;
  action_status = accepted;
  failure_reason = no_reason;
  action = encode_action "rock";
}

abbrev late_by : String → ActionStatus
late_by id = record {
  player_id = id;
  action_status = no_action;
  failure_reason = timeout;
  action = no_bytes;
}

abbrev one_round : List ActionStatus
one_round = rock_by "ann" ∷ late_by "bob" ∷ []

abbrev step : DecisionStep
step = record { turn = pos 1; mode = simultaneous; requests = [] }

starts : new config ≡ ok start
unfolding new metadata_for_selection give_each insert
starts = refl

Distinct-players : Distinct (ids_of start.players)
unfolding contains
Distinct-players = ground arith

Distinct-statuses : Distinct (status_ids one_round)
unfolding contains
Distinct-statuses = ground arith

start-IsBalanced : IsBalanced start
start-IsBalanced = (new-IsBalanced config start Distinct-players starts).0

applies :
    apply_step start step one_round ≡ ok (commit_round start (pos 1) (tally_of start one_round))
unfolding apply_step
applies = refl

apply_step_results_example :
    lookup_or [] "ann" (commit_round start (pos 1) (tally_of start one_round)).self_history
    ≡ record { round = pos 1; action = "rock"; result = "draw" } ∷ []
unfolding lookup_or contains played playable decode_action struct_fields text_field same_name
    assign_text is_playable_action
apply_step_results_example =
    apply_step_results start step one_round (commit_round start (pos 1) (tally_of start one_round))
      Distinct-players Distinct-statuses applies "ann" (rock_by "ann") refl refl

play_completes_example :
    (m' : Master) × (play start (one_round ∷ one_round ∷ []) ≡ ok m')
    × IsBalanced m'
    × (m'.resolved ≡ bounded 2 5)
    × (next_step m' ≡ none ↔ 5 ≤ 2)
play_completes_example =
    play_completes config start (one_round ∷ one_round ∷ []) Distinct-players starts
      (refl, (refl, tt))

resolve_valid_outcomes_lem_example :
    lookup "ann" (resolve_valid_outcomes (("ann", "rock") ∷ ("bob", "scissors") ∷ [])) ≡ some "win"
unfolding lookup is_playable_action contains
resolve_valid_outcomes_lem_example =
    resolve_valid_outcomes_lem "ann" (("ann", "rock") ∷ ("bob", "scissors") ∷ []) (refl, (refl, tt))
      (ground arith)

apply_step-IsBalanced_example :
    IsBalanced (commit_round start (pos 1) (tally_of start one_round))
    × ((commit_round start (pos 1) (tally_of start one_round)).resolved ≡ 1)
    × ((commit_round start (pos 1) (tally_of start one_round)).players ≡ ann ∷ bob ∷ [])
    × ((commit_round start (pos 1) (tally_of start one_round)).rounds ≡ 5)
apply_step-IsBalanced_example =
    apply_step-IsBalanced start step one_round
      (commit_round start (pos 1) (tally_of start one_round)) start-IsBalanced applies

abbrev asked : DecisionRequest
asked = record {
  player_id = "ann";
  visible_state = no_bytes;
  legal_action_hint = no_bytes;
  deadline = pos 100000000;
}

abbrev odd_action : ActionStatus
odd_action = record (rock_by "ann") { action = value (text "lizard") }

normalize_action_idem_example :
    (played (normalize_action asked odd_action) ≡ played odd_action)
    × (normalize_action asked (normalize_action asked odd_action)
        ≡ normalize_action asked odd_action)
normalize_action_idem_example = normalize_action_idem asked odd_action

normalize_action_valid_example : validate_action_status (normalize_action asked odd_action) ≡ none
normalize_action_valid_example =
    normalize_action_valid asked odd_action (ground (arith, eq_iff "ann" ""))
      (ground (arith, eq_iff "ann" "")) (inl (refl, refl))

result_places_example :
    (result start
      ≡ map
          (λ id. record {
            player_id = id;
            place =
                pos (
                  better_than (score_of start) score_order (score_of start id) start.player_ids
                  + 1);
          })
          (ordered start))
    × Perm (ordered start) ("ann" ∷ "bob" ∷ [])
    × IsSorted (player_order start).lt (ordered start)
result_places_example = result_places start
