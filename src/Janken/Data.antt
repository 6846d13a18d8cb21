-- ===== src/Janken/Data.antt =====
-- internal/games/janken/janken.go: the state of a match. Counters start at zero and grow by one in
-- a round, so they are taken as natural numbers.
use ai_arena.Prelude.{
  ℕ, String, not, List, [], ◌∷◌, map, ◌is◌, Dict, insert, length, ltb, Result, ok, ◌>>=◌, ◌>>◌,
  refuse_if,
}
use ai_arena.Prelude.Int.{ℤ, pos}
use ai_arena.Json.{no_bytes}
use ai_arena.Contract.{GameMetadata, Player, ActionStatus, no_action, no_reason}

abbrev pub game_id : String
game_id = "janken"

abbrev pub supported_version : String
supported_version = "2.1.0"

abbrev pub ruleset_regular : String
ruleset_regular = "regular"

abbrev pub regular_rounds : ℕ
regular_rounds = 5

-- In nanoseconds.
abbrev pub default_turn_deadline : ℤ
default_turn_deadline = pos 100000000

pub record Config : Type 0 where
  pub game_version : String
  pub ruleset_name : String
  pub players : List Player

pub record SelfRound : Type 0 where
  pub round : ℤ
  pub action : String
  pub result : String

pub record PublicRound : Type 0 where
  pub round : ℤ
  pub actions : Dict String
  pub results : Dict String

pub record Score : Type 0 where
  pub wins : ℕ
  pub losses : ℕ
  pub draws : ℕ
  pub timeouts : ℕ
  pub invalid_actions : ℕ

abbrev pub zero_score : Score
zero_score = record { wins = 0; losses = 0; draws = 0; timeouts = 0; invalid_actions = 0 }

pub record Master : Type 0 where
  pub meta : GameMetadata
  pub players : List Player
  pub player_ids : List String
  pub rounds : ℕ
  pub deadline : ℤ
  pub resolved : ℕ
  pub scores : Dict Score
  pub self_history : Dict (List SelfRound)
  pub public_history : List PublicRound
  pub last_action : Dict ActionStatus

pub data JankenError : Type 0 where
  too_few_players version_required unsupported_version unsupported_ruleset : JankenError
  unsupported_mode action_count_mismatch : JankenError

pub record Selection : Type 0 where
  pub meta : GameMetadata
  pub rounds : ℕ
  pub deadline : ℤ

unfoldable pub metadata_for_selection : String → String → Result JankenError Selection
metadata_for_selection version name = do
  refuse_if (not (version is supported_version)) unsupported_version
  refuse_if (not (name is ruleset_regular)) unsupported_ruleset
  ok (record {
    meta = record { game_id = game_id; game_version = version; ruleset_version = ruleset_regular };
    rounds = regular_rounds;
    deadline = default_turn_deadline;
  })

abbrev pub no_action_of : String → ActionStatus
no_action_of id = record {
  player_id = id;
  action_status = no_action;
  failure_reason = no_reason;
  action = no_bytes;
}

abbrev pub ids_of : List Player → List String
ids_of = map λ p. p.player_id

-- make(map) followed by an assignment for each player.
unfoldable pub give_each {ℓ} : {V : Type ℓ} → (String → V) → Dict V → List Player → Dict V
give_each f m [] = m
give_each f m (p ∷ ps) = give_each f (insert p.player_id (f p.player_id) m) ps

unfoldable pub new : Config → Result JankenError Master
unfolding metadata_for_selection give_each
new cfg = do
  refuse_if (ltb (length cfg.players) 2) too_few_players
  refuse_if (cfg.game_version is "") version_required
  selection ← metadata_for_selection cfg.game_version cfg.ruleset_name
  ok (record {
    meta = selection.meta;
    players = cfg.players;
    player_ids = ids_of cfg.players;
    rounds = selection.rounds;
    deadline = selection.deadline;
    resolved = 0;
    scores = give_each (λ _. zero_score) [] cfg.players;
    self_history = give_each (λ _. []) [] cfg.players;
    public_history = [];
    last_action = give_each no_action_of [] cfg.players;
  })
