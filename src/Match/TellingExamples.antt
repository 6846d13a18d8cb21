-- ===== src/Match/TellingExamples.antt =====
-- The log of a step whose players play rock, and what the echo game's replay makes of it.
use ai_arena.Prelude.{String, List, [], ◌∷◌, ◌≡◌, ◌≢◌, refl, ok, arith, eq_iff, ℕ, All, lookup}
use ai_arena.Prelude.Int.{pos, same_int, lt_int}
use ai_arena.Json.{no_bytes}
use ai_arena.Contract.{
  ActionStatus, DecisionRequest, DecisionStep, simultaneous, accepted, no_reason, decision_of,
  reason_of,
}
use ai_arena.Protocol.Wire.{omit_raw, omit_text}
use ai_arena.Janken.Data.{no_action_of}
use ai_arena.Janken.Master.{encode_action}
use ai_arena.Echo.Steps.{Marks, mark_all}
use ai_arena.Echo.Snapshots.{replay_events}
use ai_arena.Echo.History.{Told, IsKnown}
use ai_arena.Match.Payloads.{encode_action_status, decision_text, reason_text}
use ai_arena.Match.World.{Runner, ◌>>=◌, ◌>>◌, change, ask, attempt, done}
use ai_arena.Match.Runs.{new_runner}
use ai_arena.Match.Turns.{
  run_step, run_simultaneous_step, settle_turns, settle_turn, executions_from, execution,
}
use ai_arena.Match.Tellings.{IsAnswer, Answers, no_request, answer, IsReplayed}
use ai_arena.Match.StepTellings.{run_step-Told, replay_events-run_step}
use ai_arena.Match.Examples.{rocks}

abbrev asked : String → DecisionRequest
asked id = record {
  player_id = id;
  visible_state = no_bytes;
  legal_action_hint = no_bytes;
  deadline = pos 100000000;
}

abbrev requests : List DecisionRequest
requests = asked "ann" ∷ asked "bob" ∷ []

abbrev step : DecisionStep
step = record { turn = pos 1; mode = simultaneous; requests = requests }

abbrev rock_of : String → ActionStatus
rock_of id = record {
  player_id = id;
  action_status = accepted;
  failure_reason = no_reason;
  action = encode_action "rock";
}

abbrev statuses : List ActionStatus
statuses = rock_of "ann" ∷ rock_of "bob" ∷ []

abbrev fresh : Runner ℕ String
fresh = new_runner "m1" [] 0

step_returns : (run_step (rocks 100) step fresh).0 ≡ ok statuses
unfolding run_step run_simultaneous_step settle_turns settle_turn executions_from execution ◌>>=◌
    ◌>>◌ change ask attempt done new_runner
step_returns = refl

rock_of-IsAnswer : (id : String) → id ≢ "" → IsAnswer (asked id) (rock_of id)
unfolding encode_action_status omit_raw omit_text decision_of decision_text reason_of reason_text
rock_of-IsAnswer id n = record {
  player = refl;
  written = (_, refl);
  plain = (refl, refl);
  named = n;
}

statuses-Answers : Answers requests statuses
statuses-Answers =
    answer (rock_of-IsAnswer "ann" (ground (arith, eq_iff "ann" "")))
      (answer (rock_of-IsAnswer "bob" (ground (arith, eq_iff "bob" ""))) no_request)

first-IsReplayed : IsReplayed (pos 1) (pos 1)
unfolding same_int lt_int
first-IsReplayed = (refl, refl)

fresh-Told : Told (pos 1) fresh.events []
unfolding new_runner
fresh-Told = Told.nothing

abbrev marks : Marks
marks = record {
  score = ("ann", pos 0) ∷ ("bob", pos 0) ∷ [];
  last_action = ("ann", no_action_of "ann") ∷ ("bob", no_action_of "bob") ∷ [];
}

known : All (IsKnown marks.last_action) statuses
unfolding lookup
known = ((no_action_of "ann", refl), ((no_action_of "bob", refl), tt))

run_step-Told_example : Told (pos 1) (run_step (rocks 100) step fresh).1.events statuses
run_step-Told_example =
    run_step-Told (rocks 100) (pos 1) (pos 1) simultaneous requests [] statuses fresh
      first-IsReplayed step_returns statuses-Answers fresh-Told

replay_events-run_step_example :
    replay_events (pos 1) marks (run_step (rocks 100) step fresh).1.events
    ≡ ok (mark_all marks statuses)
replay_events-run_step_example =
    replay_events-run_step (rocks 100) (pos 1) (pos 1) simultaneous requests [] statuses fresh marks
      first-IsReplayed step_returns statuses-Answers fresh-Told known
