-- ===== src/Echo/Data.antt =====
-- internal/games/echo/echo.go: the state of a match. The order of the turns of the shuffled ruleset
-- is by SHA-256, of which only the comparison of two turns is used, as an argument.
use ai_arena.Prelude.{
  ℕ, zero, suc, String, Bool, true, false, not, ◌&&◌, List, [], ◌∷◌, map, none, some, ◌is◌,
  if◌then◌else◌, Dict, insert, length, ltb, get_elem?, Result, ok, err, ◌>>=◌, ◌>>◌, refuse_if,
}
use ai_arena.Prelude.Int.{ℤ, pos}
use ai_arena.Json.{no_bytes}
use ai_arena.Contract.{
  GameMetadata, Player, DecisionMode, sequential, simultaneous, ActionStatus, no_action, no_reason,
}
use ai_arena.Standings.Sorting.{sort_slice}

abbrev pub game_id : String
game_id = "echo-count"

abbrev pub supported_version : String
supported_version = "2.0.0"

abbrev pub ruleset_simultaneous_3_turn : String
ruleset_simultaneous_3_turn = "phase2-simultaneous-3turn"

abbrev pub ruleset_sequential_3_turn : String
ruleset_sequential_3_turn = "phase2-sequential-3turn"

abbrev pub ruleset_simultaneous_2_turn : String
ruleset_simultaneous_2_turn = "phase2-simultaneous-2turn"

abbrev pub ruleset_simultaneous_shuffle_3_turn : String
ruleset_simultaneous_shuffle_3_turn = "phase2-simultaneous-shuffle-3turn"

-- In nanoseconds.
abbrev pub default_turn_deadline : ℤ
default_turn_deadline = pos 100000000

pub record Config : Type 0 where
  pub game_id : String
  pub game_version : String
  pub ruleset_name : String
  pub rng_seed : String
  pub players : List Player

pub record Master : Type 0 where
  pub meta : GameMetadata
  pub players : List Player
  pub player_ids : List String
  pub mode : DecisionMode
  pub turns : ℕ
  pub deadline : ℤ
  pub rng_seed : String
  pub seed_aware : Bool
  pub order : List ℕ
  pub resolved : ℕ
  pub next_player : ℕ
  pub score : Dict ℤ
  pub last_action : Dict ActionStatus

pub data EchoError : Type 0 where
  no_players version_required unsupported_version unsupported_ruleset seed_required : EchoError
  unsupported_mode no_such_player : EchoError
  turn_out_of_range malformed_payload unknown_player : EchoError
  other_game other_version other_ruleset malformed_state other_mode : EchoError
  other_seed other_order other_expected : EchoError

pub record Selection : Type 0 where
  pub meta : GameMetadata
  pub mode : DecisionMode
  pub turns : ℕ
  pub deadline : ℤ
  pub seed_aware : Bool

abbrev pub new_selection : String → String → String → DecisionMode → ℕ → Bool → Selection
new_selection id version ruleset_name mode turns seed_aware = record {
  meta = record { game_id = id; game_version = version; ruleset_version = ruleset_name };
  mode = mode;
  turns = turns;
  deadline = default_turn_deadline;
  seed_aware = seed_aware;
}

unfoldable pub select_ruleset : String → String → String → Result EchoError Selection
select_ruleset id version name =
    if name is ruleset_simultaneous_3_turn
    then ok (new_selection id version ruleset_simultaneous_3_turn simultaneous 3 false)
    else if name is ruleset_sequential_3_turn
    then ok (new_selection id version ruleset_sequential_3_turn sequential 3 false)
    else if name is ruleset_simultaneous_2_turn
    then ok (new_selection id version ruleset_simultaneous_2_turn simultaneous 2 false)
    else if name is ruleset_simultaneous_shuffle_3_turn
    then ok (new_selection id version ruleset_simultaneous_shuffle_3_turn simultaneous 3 true)
    else err unsupported_ruleset

unfoldable pub selection_for : String → String → String → Result EchoError Selection
unfolding select_ruleset
selection_for id version name = do
  refuse_if (not (version is supported_version)) unsupported_version
  select_ruleset (if id is "" then game_id else id) version name

-- n, n + 1 and so on: as many as the first number.
unfoldable pub count_from : ℕ → ℕ → List ℕ
count_from zero n = []
count_from (suc k) n = n ∷ count_from k (suc n)

-- The turn to expect after a number of resolved turns: the last one when there is no other.
unfoldable pub last_or : ℕ → List ℕ → ℕ
last_or n [] = n
last_or n (x ∷ xs) = last_or x xs

unfoldable pub expected_for_resolved_count : List ℕ → ℕ → ℕ
unfolding last_or
expected_for_resolved_count order resolved = elim (get_elem? order resolved) [
  | some n ↦ n
  | none ↦ last_or 0 order
]

abbrev pub no_action_of : String → ActionStatus
no_action_of id = record {
  player_id = id;
  action_status = no_action;
  failure_reason = no_reason;
  action = no_bytes;
}

-- An assignment for each player.
unfoldable pub assign_players : {V : Type 0} → (String → V) → Dict V → List String → Dict V
assign_players f m [] = m
assign_players f m (id ∷ ids) = assign_players f (insert id (f id) m) ids

-- turnRank(seed, a) < turnRank(seed, b) is `ranks_before seed a b`.
module _ (ranks_before : String → ℕ → ℕ → Bool) where
  unfoldable pub expected_order : ℕ → String → Bool → List ℕ
  unfolding count_from sort_slice
  expected_order turns seed seed_aware =
      if seed_aware then sort_slice (ranks_before seed) (count_from turns 1) else count_from turns 1

  unfoldable pub new : Config → Result EchoError Master
  unfolding selection_for expected_order assign_players
  new cfg = do
    refuse_if (not (ltb 0 (length cfg.players))) no_players
    refuse_if (cfg.game_version is "") version_required
    selected ← selection_for cfg.game_id cfg.game_version cfg.ruleset_name
    refuse_if (selected.seed_aware && cfg.rng_seed is "") seed_required
    ok (record {
      meta = selected.meta;
      players = cfg.players;
      player_ids = map (λ p. p.player_id) cfg.players;
      mode = selected.mode;
      turns = selected.turns;
      deadline = selected.deadline;
      rng_seed = cfg.rng_seed;
      seed_aware = selected.seed_aware;
      order = expected_order selected.turns cfg.rng_seed selected.seed_aware;
      resolved = 0;
      next_player = 0;
      score = assign_players (λ _. pos 0) [] (map (λ p. p.player_id) cfg.players);
      last_action = assign_players no_action_of [] (map (λ p. p.player_id) cfg.players);
    })
