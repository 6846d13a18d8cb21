-- ===== src/Service/Ranking.antt =====
-- internal/platform/service/ranking.go: the ranking snapshot of a scope. The counters of a snapshot
-- start at zero and grow by one, so they are natural numbers; the zero
-- value of a status is `none`. A range over the map of entries is a walk along its list: what it
-- builds is sorted.
use ai_arena.Prelude.{
  ℕ, ◌+◌, String, Bool, ◌&&◌, ◌||◌, List, [], ◌∷◌, ◌++◌, map, Option, none, some, ◌is◌, ◌==◌,
  if◌then◌else◌, Dict, lookup_or, insert, contains, length, is_blank, trim_space, text_lt, Result,
  ok, err,
}
use ai_arena.Prelude.Int.{ℤ, pos, same_int}
use ai_arena.Contract.{MatchStatus}
use ai_arena.Match.{ResultSummary}
use ai_arena.Standings.Sorting.{sort_slice}

pub record RankingScope : Type 0 where
  pub game_id : String
  pub game_version : String
  pub ruleset_version : String

-- A map[int]int on places.
abbrev pub Counts : Type 0
Counts = List (ℤ × ℕ)

pub record RankingEntry : Type 0 where
  pub bot_id : String
  pub bot_name : String
  pub last_player_id : String
  pub matches_played : ℕ
  pub first_places : ℕ
  pub placement_counts : Counts
  pub last_run_id : String
  pub last_match_id : String
  pub last_status : Option MatchStatus

pub record RankingSnapshot : Type 0 where
  pub version : ℕ
  pub scope : RankingScope
  pub applied_run_ids : List String
  pub applied_match_ids : List String
  pub last_applied_run_id : String
  pub last_applied_match_id : String
  pub completed_matches : ℕ
  pub entries : List RankingEntry

pub record RankingPlacement : Type 0 where
  pub bot_id : String
  pub bot_name : String
  pub player_id : String
  pub place : ℤ

pub record RankingUpdate : Type 0 where
  pub scope : RankingScope
  pub run_id : String
  pub match_id : String
  pub status : MatchStatus
  pub placements : List RankingPlacement

pub data RankingError : Type 0 where
  game_id_required game_version_required ruleset_version_required : RankingError
  status_not_completed run_id_required match_id_required placements_required : RankingError
  place_not_positive player_not_present duplicate_placement bot_id_required : String → RankingError
  scope_mismatch : RankingError

abbrev pub ranking_snapshot_version : ℕ
ranking_snapshot_version = 2

unfoldable pub normalize_scope : RankingScope → RankingScope
normalize_scope s = record {
  game_id = trim_space s.game_id;
  game_version = trim_space s.game_version;
  ruleset_version = trim_space s.ruleset_version;
}

unfoldable pub new_ranking_snapshot : RankingScope → RankingSnapshot
new_ranking_snapshot scope = record {
  version = ranking_snapshot_version;
  scope = normalize_scope scope;
  applied_run_ids = [];
  applied_match_ids = [];
  last_applied_run_id = "";
  last_applied_match_id = "";
  completed_matches = 0;
  entries = [];
}

unfoldable pub scope_from_summary : ResultSummary → RankingScope
scope_from_summary s = normalize_scope (record {
  game_id = s.game_id;
  game_version = s.game_version;
  ruleset_version = s.ruleset_version;
})

unfoldable pub validate_scope : RankingScope → Option RankingError
validate_scope s =
    if s.game_id is ""
    then some game_id_required
    else if s.game_version is ""
    then some game_version_required
    else if s.ruleset_version is ""
    then some ruleset_version_required
    else none

unfoldable pub normalize_entry : RankingEntry → RankingEntry
normalize_entry e = record e {
  bot_id = trim_space e.bot_id;
  bot_name = trim_space e.bot_name;
  last_player_id = trim_space e.last_player_id;
  last_run_id = trim_space e.last_run_id;
  last_match_id = trim_space e.last_match_id;
}

abbrev pub by_bot_id : RankingEntry → RankingEntry → Bool
by_bot_id a b = text_lt a.bot_id b.bot_id

-- sort.Slice is an insertion sort up to 12 elements; it may put more of them whose trimmed ids are
-- the same in another order.
unfoldable pub sorted_entries : List RankingEntry → List RankingEntry
sorted_entries es = sort_slice by_bot_id (map normalize_entry es)

unfoldable pub normalize_snapshot : RankingSnapshot → RankingSnapshot
normalize_snapshot s = record s {
  scope = normalize_scope s.scope;
  version = if s.version == 0 then ranking_snapshot_version else s.version;
  completed_matches = length s.applied_match_ids;
  entries = sorted_entries s.entries;
}

abbrev pub same_scope : RankingScope → RankingScope → Bool
same_scope a b =
    a.game_id is b.game_id
    && (a.game_version is b.game_version && a.ruleset_version is b.ruleset_version)

-- m[place]++
unfoldable pub count_place : ℤ → Counts → Counts
unfolding same_int
count_place place [] = (place, 1) ∷ []
count_place place ((p, n) ∷ counts) =
    if same_int p place then (p, n + 1) ∷ counts else (p, n) ∷ count_place place counts

abbrev pub zero_entry : RankingEntry
zero_entry = record {
  bot_id = "";
  bot_name = "";
  last_player_id = "";
  matches_played = 0;
  first_places = 0;
  placement_counts = [];
  last_run_id = "";
  last_match_id = "";
  last_status = none;
}

-- The entry of a placement, from the one that stood in the map.
unfoldable pub placed_entry : RankingUpdate → RankingPlacement → RankingEntry → RankingEntry
unfolding same_int count_place
placed_entry u p old =
    let e = normalize_entry old in
    record {
      bot_id = p.bot_id;
      bot_name = if is_blank p.bot_name then e.bot_name else p.bot_name;
      last_player_id = p.player_id;
      matches_played = e.matches_played + 1;
      first_places = if same_int p.place (pos 1) then e.first_places + 1 else e.first_places;
      placement_counts = count_place p.place e.placement_counts;
      last_run_id = u.run_id;
      last_match_id = u.match_id;
      last_status = some u.status;
    }

-- The loop that fills the map from the entries of the snapshot.
unfoldable pub index_entries : Dict RankingEntry → List RankingEntry → Dict RankingEntry
index_entries m [] = m
index_entries m (e ∷ es) =
    index_entries (insert (normalize_entry e).bot_id (normalize_entry e) m) es

-- The loop over the placements.
unfoldable pub place_all :
    RankingUpdate → Dict RankingEntry → List RankingPlacement → Dict RankingEntry
place_all u m [] = m
place_all u m (p ∷ ps) =
    place_all u (insert p.bot_id (placed_entry u p (lookup_or zero_entry p.bot_id m)) m) ps

abbrev pub values : Dict RankingEntry → List RankingEntry
values = map λ e. e.1

-- The snapshot with an update that it has not seen.
unfoldable pub count_update : RankingSnapshot → RankingUpdate → RankingSnapshot
count_update s u = record s {
  applied_run_ids = s.applied_run_ids ++ u.run_id ∷ [];
  applied_match_ids = s.applied_match_ids ++ u.match_id ∷ [];
  last_applied_run_id = u.run_id;
  last_applied_match_id = u.match_id;
  completed_matches = length (s.applied_match_ids ++ u.match_id ∷ []);
  entries = sorted_entries (values (place_all u (index_entries [] s.entries) u.placements));
}

unfoldable pub apply_ranking_update :
    RankingSnapshot → RankingUpdate → Result RankingError RankingSnapshot
apply_ranking_update snapshot u =
    let s = normalize_snapshot snapshot in
    if same_scope s.scope (normalize_scope u.scope)
    then if contains u.run_id s.applied_run_ids || contains u.match_id s.applied_match_ids
      then ok s
      else ok (count_update s u)
    else err scope_mismatch
