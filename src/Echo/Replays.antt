-- ===== src/Echo/Replays.antt =====
-- internal/games/echo/echo.go: a match rebuilt from a snapshot, and a snapshot rebuilt from the events
-- of a match.
use ai_arena.Prelude.{
  ℕ, String, Bool, true, false, not, ◌&&◌, List, [], ◌∷◌, none, some, ◌is◌, if◌then◌else◌, Dict,
  lookup_or, insert, Result, ok, err, ◌>>=◌, ◌>>◌, refuse_if,
}
use ai_arena.Prelude.Int.{ℤ, pos, is_negative, is_positive, exceeds, to_ℕ, same_int}
use ai_arena.Json.{Json, value, number, text, object, array, end, field, map_fields, list_items}
use ai_arena.Contract.{Player, MatchStatus, Snapshot, PlayerSnapshot}
use ai_arena.Match.{Event}
use ai_arena.Match.Payloads.{mode_text}
use ai_arena.Protocol.Wire.{omit_text}
use ai_arena.Echo.Data.{
  Config, Master, EchoError, Selection, seed_required, turn_out_of_range, other_game, other_version,
  other_ruleset, malformed_state, other_mode, other_seed, other_order, other_expected,
  selection_for, expected_order, expected_for_resolved_count, no_action_of, assign_players, new,
}
use ai_arena.Echo.Steps.{visible_raw, Marks}
use ai_arena.Echo.Snapshots.{
  ids_of, SnapshotState, decode_state, same_int_slice, load_scores, load_actions, replay_events,
}

abbrev is_no_list : List ℤ → Bool
is_no_list [] = true
is_no_list (n ∷ ns) = false

-- What a snapshot may say of the game of a match.
unfoldable pub check_snapshot : Master → Snapshot → Result EchoError (Unit {0})
check_snapshot m snapshot = do
  refuse_if (not (snapshot.game_id is "") && not (snapshot.game_id is m.meta.game_id)) other_game
  refuse_if
      (not (snapshot.game_version is "") && not (snapshot.game_version is m.meta.game_version))
      other_version
  refuse_if
      (not (snapshot.ruleset_version is "")
        && not (snapshot.ruleset_version is m.meta.ruleset_version))
      other_ruleset
  ok tt

-- snapshotState, a struct.
unfoldable pub replayed_state : Selection → ℤ → ℕ → Dict ℤ → String → List ℕ → Json
unfolding mode_text omit_text
replayed_state selected target expected score seed order =
    let shuffled =
      omit_text "rng_seed" seed
        (field "expected_order" (array (list_items (λ n. number (pos n)) order)) end) in
    object (
      field "mode" (text (mode_text selected.mode)) (
        field "turn" (number target) (
          field "expected" (number (pos expected)) (
            field "score" (object (map_fields number score))
              (if selected.seed_aware then shuffled else end)))))

-- The visible state that is rebuilt has the expected number for its turn.
unfoldable pub replayed_players : ℕ → Marks → List String → Dict PlayerSnapshot
unfolding visible_raw
replayed_players expected b [] = []
replayed_players expected b (id ∷ ids) =
    insert id
      (record {
        visible_state = visible_raw expected expected b.score;
        last_action_status = lookup_or (no_action_of id) id b.last_action;
        stderr_bytes = 0;
      })
      (replayed_players expected b ids)

unfoldable pub no_marks : List String → Marks
unfolding assign_players
no_marks ids = record {
  score = assign_players (λ _. pos 0) [] ids;
  last_action = assign_players no_action_of [] ids;
}

unfoldable pub replayed_snapshot : Selection → List Player → ℤ → String → List ℕ → Marks → Snapshot
unfolding expected_for_resolved_count replayed_state replayed_players
replayed_snapshot selected players target seed order b =
    let expected = expected_for_resolved_count order (to_ℕ target) in
    record {
      match_id = "";
      game_id = selected.meta.game_id;
      game_version = selected.meta.game_version;
      ruleset_version = selected.meta.ruleset_version;
      turn = target;
      status = MatchStatus.running;
      game_state = value (replayed_state selected target expected b.score seed order);
      per_player = replayed_players expected b (ids_of players);
    }

module _ (ranks_before : String → ℕ → ℕ → Bool) where
  -- The seed and the order of a match of the shuffled ruleset.
  unfoldable pub adopt_seed : Master → SnapshotState → Result EchoError Master
  unfolding expected_order same_int_slice
  adopt_seed m state =
      if m.seed_aware
      then (do
        refuse_if (state.rng_seed is "") seed_required
        refuse_if (not (m.rng_seed is "") && not (state.rng_seed is m.rng_seed)) other_seed
        refuse_if
            (not (is_no_list state.expected_order)
              && not (
                  same_int_slice state.expected_order
                    (expected_order ranks_before m.turns state.rng_seed true)))
            other_order
        ok (record m {
          rng_seed = state.rng_seed;
          order = expected_order ranks_before m.turns state.rng_seed true;
        }))
      else ok m

  unfoldable pub load_state : Master → Snapshot → SnapshotState → Result EchoError Master
  unfolding adopt_seed mode_text same_int expected_for_resolved_count load_scores load_actions
      assign_players
  load_state m snapshot state = do
    refuse_if (not (state.mode is "") && not (state.mode is mode_text m.mode)) other_mode
    refuse_if (is_negative snapshot.turn) turn_out_of_range
    refuse_if (exceeds snapshot.turn m.turns) turn_out_of_range
    seeded ← adopt_seed m state
    refuse_if
        (is_positive state.expected
          && not (
              same_int state.expected
                (pos (expected_for_resolved_count seeded.order (to_ℕ snapshot.turn)))))
        other_expected
    score ← load_scores state.score (assign_players (λ _. pos 0) m.score m.player_ids)
    actions ←
        load_actions snapshot.per_player (assign_players no_action_of m.last_action m.player_ids)
    ok (record seeded {
      resolved = to_ℕ snapshot.turn;
      next_player = 0;
      score = score;
      last_action = actions;
    })

  unfoldable pub apply_snapshot : Master → Snapshot → Result EchoError Master
  unfolding check_snapshot decode_state load_state
  apply_snapshot m snapshot = check_snapshot m snapshot >> elim (decode_state snapshot.game_state) [
    | none ↦ err malformed_state
    | some state ↦ load_state m snapshot state
  ]

  -- The seed of a configuration that has none is the one of the snapshot.
  unfoldable pub seeded_config : Config → Snapshot → Config
  unfolding decode_state
  seeded_config cfg snapshot =
      if cfg.rng_seed is ""
      then elim (decode_state snapshot.game_state) [
        | none ↦ cfg
        | some state ↦ record cfg { rng_seed = state.rng_seed }
      ]
      else cfg

  unfoldable pub new_from_snapshot : Config → Snapshot → Result EchoError Master
  unfolding seeded_config new apply_snapshot
  new_from_snapshot cfg snapshot =
      new ranks_before (seeded_config cfg snapshot) >>= λ m. apply_snapshot m snapshot

  -- SnapshotFromHistoryWithGameID.
  unfoldable pub snapshot_from_history : Config → List Event → ℤ → Result EchoError Snapshot
  unfolding selection_for expected_order replay_events no_marks replayed_snapshot
  snapshot_from_history cfg events target = do
    selected ← selection_for cfg.game_id cfg.game_version cfg.ruleset_name
    refuse_if (selected.seed_aware && cfg.rng_seed is "") seed_required
    refuse_if (is_negative target) turn_out_of_range
    refuse_if (exceeds target selected.turns) turn_out_of_range
    b ← replay_events target (no_marks (ids_of cfg.players)) events
    ok (
        replayed_snapshot selected cfg.players target cfg.rng_seed
          (expected_order ranks_before selected.turns cfg.rng_seed selected.seed_aware) b)
