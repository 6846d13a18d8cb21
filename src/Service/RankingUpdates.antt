-- ===== src/Service/RankingUpdates.antt =====
-- internal/platform/service/ranking.go: buildRankingUpdate, and what it lets through.
use ai_arena.Prelude.{
  String, true, false, not, List, [], ◌∷◌, map, Option, none, some, ◌==◌, if◌then◌else◌, Dict,
  lookup, insert, contains, length, is_blank, Result, ok, err, ◌>>=◌, ◌>>◌, refuse_if, ◌≡◌,
}
use ai_arena.Prelude.Int.{is_positive}
use ai_arena.Contract.{Placement}
use ai_arena.Match.{ResultSummary}
use ai_arena.Service.Records.{MatchSubmission, SubmittedPlayer}
use ai_arena.Service.Worker.{is_match_completed}
use ai_arena.Service.Ranking.{
  RankingPlacement, RankingUpdate, RankingError, status_not_completed, run_id_required,
  match_id_required, placements_required, place_not_positive, player_not_present,
  duplicate_placement, bot_id_required, scope_from_summary, validate_scope,
}

-- The map of the players of a submission, by their ids.
unfoldable pub index_players : Dict SubmittedPlayer → List SubmittedPlayer → Dict SubmittedPlayer
index_players m [] = m
index_players m (p ∷ ps) = index_players (insert p.player_id p m) ps

-- The loop over the placements, with the players that it has seen.
unfoldable pub build_placements :
    Dict SubmittedPlayer
    → List String
    → List Placement
    → Result RankingError (List RankingPlacement)
build_placements players seen [] = ok []
build_placements players seen (p ∷ ps) =
    let rest = build_placements players (p.player_id ∷ seen) ps in
    if not (is_positive p.place)
    then err (place_not_positive p.player_id)
    else elim (lookup p.player_id players) [
      | none ↦ err (player_not_present p.player_id)
      | some player ↦
          if contains p.player_id seen
          then err (duplicate_placement p.player_id)
          else if is_blank player.bot_id
          then err (bot_id_required p.player_id)
          else rest >>= λ built. ok (
              record {
                bot_id = player.bot_id;
                bot_name = player.bot_name;
                player_id = p.player_id;
                place = p.place;
              }
              ∷ built)
    ]

abbrev pub refuse_some : Option RankingError → Result RankingError (Unit {0})
refuse_some none = ok tt
refuse_some (some e) = err e

unfoldable pub build_ranking_update :
    MatchSubmission → ResultSummary → Result RankingError RankingUpdate
build_ranking_update m s = do
  refuse_some (validate_scope (scope_from_summary s))
  refuse_if (not (is_match_completed s.status)) status_not_completed
  refuse_if (is_blank m.run_id) run_id_required
  refuse_if (is_blank s.match_id) match_id_required
  refuse_if (length s.placements == 0) placements_required
  built ← build_placements (index_players [] m.players) [] s.placements
  ok (record {
    scope = scope_from_summary s;
    run_id = m.run_id;
    match_id = s.match_id;
    status = s.status;
    placements = built;
  })

-- A positive place of a player of the submission, under the bot that the player has there.
abbrev pub IsPlacedAs : Dict SubmittedPlayer → RankingPlacement → Type 0
IsPlacedAs players r =
    (is_positive r.place ≡ true)
    × (is_blank r.bot_id ≡ false)
    × ((player : SubmittedPlayer) × (lookup r.player_id players ≡ some player)
        × (r.bot_id ≡ player.bot_id))

abbrev pub placed_ids : List RankingPlacement → List String
placed_ids = map λ r. r.player_id

abbrev pub entry_of : SubmittedPlayer → Placement → RankingPlacement
entry_of player p = record {
  bot_id = player.bot_id;
  bot_name = player.bot_name;
  player_id = p.player_id;
  place = p.place;
}

-- What a step of the loop has passed.
record IsBuilt (players : Dict SubmittedPlayer) (seen : List String) (p : Placement)
    (ps : List Placement) (built : List RankingPlacement) : Type 0 where
  player : SubmittedPlayer
  later : List RankingPlacement
  present : lookup p.player_id players ≡ some player
  positive : is_positive p.place ≡ true
  fresh : contains p.player_id seen ≡ false
  identified : is_blank player.bot_id ≡ false
  rest : build_placements players (p.player_id ∷ seen) ps ≡ ok later
  whole : built ≡ entry_of player p ∷ later

abbrev pub placement_of : RankingPlacement → Placement
placement_of r = record { player_id = r.player_id; place = r.place }
