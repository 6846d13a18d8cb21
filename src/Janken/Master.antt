-- ===== src/Janken/Master.antt =====
-- internal/games/janken/janken.go: the steps of a match.
use ai_arena.Prelude.{
  ◌+◌, String, Bool, true, false, not, List, [], ◌∷◌, ◌++◌, map, Option, none, some, ◌is◌,
  if◌then◌else◌, Dict, lookup_or, insert, length, ◌==◌, leb, Result, ok, ◌>>◌, refuse_if,
}
use ai_arena.Prelude.Int.{ℤ, pos}
use ai_arena.Json.{
  RawMessage, no_bytes, value, text, object, array, end, field, nil, cons, struct_fields,
  text_field,
}
use ai_arena.Contract.{
  Player, DecisionMode, simultaneous, DecisionRequest, DecisionStep, ActionStatus, no_action,
  is_accepted, FailureReason, timeout, illegal_action,
}
use ai_arena.Janken.Rules.{is_playable_action, resolve_valid_outcomes}
use ai_arena.Janken.Data.{
  SelfRound, Score, zero_score, Master, JankenError, unsupported_mode, action_count_mismatch,
}
use ai_arena.Janken.Views.{visible_state}

abbrev pub legal_action_hint : RawMessage
legal_action_hint = value (
    object (
      field "properties"
        (object (
          field "action"
            (object (
              field "enum"
                (array (cons (text "rock") (cons (text "paper") (cons (text "scissors") nil))))
                (field "type" (text "string") end)))
            end))
        (field "required" (array (cons (text "action") nil)) (field "type" (text "object") end))))

-- `none` when the match is complete.
unfoldable pub next_step : Master → Option DecisionStep
unfolding visible_state
next_step m =
    if leb m.rounds m.resolved
    then none
    else some (record {
      turn = pos (m.resolved + 1);
      mode = simultaneous;
      requests =
          map
            (λ p. record {
              player_id = p.player_id;
              visible_state = visible_state m p.player_id;
              legal_action_hint = legal_action_hint;
              deadline = m.deadline;
            })
            m.players;
    })

-- json.Unmarshal into `action`: `none` on an error.
unfoldable pub decode_action : RawMessage → Option String
decode_action raw = elim (struct_fields raw) [
  | none ↦ none
  | some fs ↦ let (act, fine) = text_field "action" ("", true) fs in if fine then some act else none
]

-- The action that a status plays, if it decodes and is playable.
unfoldable pub playable : RawMessage → Option String
playable raw = elim (decode_action raw) [
  | none ↦ none
  | some act ↦ if is_playable_action act then some act else none
]

abbrev pub encode_action : String → RawMessage
encode_action act = value (object (field "action" (text act) end))

unfoldable pub normalize_action : DecisionRequest → ActionStatus → ActionStatus
normalize_action req status =
    if is_accepted status.action_status
    then elim (playable status.action) [
      | none ↦ record {
        player_id = req.player_id;
        action_status = no_action;
        failure_reason = illegal_action;
        action = no_bytes;
      }
      | some act ↦ record status { action = encode_action act }
    ]
    else record status { action = no_bytes }

-- The maps that ApplyStep fills while it reads the statuses.
pub record Tally : Type 0 where
  pub last_action : Dict ActionStatus
  pub scores : Dict Score
  pub actions : Dict String
  pub outcomes : Dict String
  pub valid : Dict String

unfoldable pub count_failure : FailureReason → Score → Score
count_failure timeout s = record s { timeouts = s.timeouts + 1 }
count_failure illegal_action s = record s { invalid_actions = s.invalid_actions + 1 }
count_failure _ s = s

-- What an accepted and playable status plays.
unfoldable pub played : ActionStatus → Option String
played status = if is_accepted status.action_status then playable status.action else none

unfoldable pub tally_status : Tally → ActionStatus → Tally
tally_status t status = elim (played status) [
  | none ↦ record {
    last_action = insert status.player_id status t.last_action;
    scores =
        insert status.player_id
          (count_failure status.failure_reason (lookup_or zero_score status.player_id t.scores))
          t.scores;
    actions = insert status.player_id "no_action" t.actions;
    outcomes = insert status.player_id "loss" t.outcomes;
    valid = t.valid;
  }
  | some act ↦ record {
    last_action = insert status.player_id status t.last_action;
    scores =
        insert status.player_id
          (count_failure status.failure_reason (lookup_or zero_score status.player_id t.scores))
          t.scores;
    actions = insert status.player_id act t.actions;
    outcomes = t.outcomes;
    valid = insert status.player_id act t.valid;
  }
]

unfoldable pub tally_statuses : Tally → List ActionStatus → Tally
unfolding tally_status
tally_statuses t [] = t
tally_statuses t (s ∷ ss) = tally_statuses (tally_status t s) ss

unfoldable pub merge : Dict String → Dict String → Dict String
merge out [] = out
merge out ((p, o) ∷ m) = merge (insert p o out) m

unfoldable pub count_outcome : String → Score → Score
count_outcome o s =
    if o is "win"
    then record s { wins = s.wins + 1 }
    else if o is "draw"
    then record s { draws = s.draws + 1 }
    else record s { losses = s.losses + 1 }

pub record Books : Type 0 where
  pub scores : Dict Score
  pub self_history : Dict (List SelfRound)

-- One round of the loop over the players.
unfoldable pub settle_player : ℤ → Dict String → Dict String → Books → String → Books
unfolding count_outcome
settle_player turn actions outcomes b id = record {
  scores =
      insert id (count_outcome (lookup_or "" id outcomes) (lookup_or zero_score id b.scores))
        b.scores;
  self_history =
      insert id
        (lookup_or [] id b.self_history
          ++ record {
            round = turn;
            action = lookup_or "" id actions;
            result = lookup_or "" id outcomes;
          }
            ∷ [])
        b.self_history;
}

unfoldable pub settle : ℤ → Dict String → Dict String → Books → List Player → Books
unfolding settle_player
settle turn actions outcomes b [] = b
settle turn actions outcomes b (p ∷ ps) =
    settle turn actions outcomes (settle_player turn actions outcomes b p.player_id) ps

abbrev pub is_simultaneous : DecisionMode → Bool
is_simultaneous simultaneous = true
is_simultaneous _ = false

unfoldable pub tally_of : Master → List ActionStatus → Tally
tally_of m = tally_statuses (record {
  last_action = m.last_action;
  scores = m.scores;
  actions = [];
  outcomes = [];
  valid = [];
})

-- The outcome of each player of the round.
unfoldable pub outcomes_of : Tally → Dict String
outcomes_of t = merge t.outcomes (resolve_valid_outcomes t.valid)

unfoldable pub commit_round : Master → ℤ → Tally → Master
commit_round m turn t =
    let outcomes = outcomes_of t in
    let books =
      settle turn t.actions outcomes (record { scores = t.scores; self_history = m.self_history })
        m.players in
    record m {
      resolved = m.resolved + 1;
      scores = books.scores;
      self_history = books.self_history;
      public_history =
          m.public_history ++ record { round = turn; actions = t.actions; results = outcomes } ∷ [];
      last_action = t.last_action;
    }

unfoldable pub apply_step : Master → DecisionStep → List ActionStatus → Result JankenError Master
apply_step m step statuses = do
  refuse_if (not (is_simultaneous step.mode)) unsupported_mode
  refuse_if (not (length statuses == length m.players)) action_count_mismatch
  ok (commit_round m step.turn (tally_of m statuses))
