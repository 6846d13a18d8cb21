-- ===== src/Service/Submissions.antt =====
-- internal/platform/service/types.go: ValidateSubmission.
use ai_arena.Prelude.{
  String, Bool, true, false, not, ◌&&◌, List, [], ◌∷◌, ◌++◌, Option, none, some, if◌then◌else◌,
  contains, contains-append, is_blank, ◌==◌, length, All, Distinct, map, ◌≡◌, ◌≢◌, refl, ◌↔◌, arith,
  eq_iff,
}
use ai_arena.Prelude.Int.{ℤ, pos, negsuc, is_positive}
use ai_arena.Service.Records.{
  MatchSubmission, SubmittedPlayer, RunKind, initial, retry, rerun, other_kind,
}

pub data SubmissionError : Type 0 where
  run_id_required : SubmissionError
  match_id_required : SubmissionError
  game_id_required : SubmissionError
  game_version_required : SubmissionError
  ruleset_version_required : SubmissionError
  players_required : SubmissionError
  output_dir_required : SubmissionError
  attempt_count_not_positive : SubmissionError
  initial_attempt_count : SubmissionError
  initial_parent : SubmissionError
  parent_required : RunKind → SubmissionError
  run_kind_required : SubmissionError
  player_id_required : SubmissionError
  artifact_required : String → SubmissionError
  duplicate_player_id : String → SubmissionError

abbrev pub is_one : ℤ → Bool
is_one (pos n) = n == 1
is_one (negsuc n) = false

-- The switch on the run kind.
unfoldable pub validate_run_kind : MatchSubmission → RunKind → Option SubmissionError
validate_run_kind m initial =
    if not (is_one m.attempt_count)
    then some initial_attempt_count
    else if not (is_blank m.parent_run_id)
    then some initial_parent
    else none
validate_run_kind m retry = if is_blank m.parent_run_id then some (parent_required retry) else none
validate_run_kind m rerun = if is_blank m.parent_run_id then some (parent_required rerun) else none
validate_run_kind m (other_kind _) = some run_kind_required

-- The loop over the players, with the ids that it has seen.
unfoldable pub validate_players : List String → List SubmittedPlayer → Option SubmissionError
validate_players seen [] = none
validate_players seen (p ∷ ps) =
    let rest = validate_players (seen ++ p.player_id ∷ []) ps in
    if is_blank p.player_id
    then some player_id_required
    else if is_blank p.artifact_ref && is_blank p.artifact_id
    then some (artifact_required p.player_id)
    else if contains p.player_id seen
    then some (duplicate_player_id p.player_id)
    else rest

-- `none` when the submission is valid.
unfoldable pub validate_submission : MatchSubmission → Option SubmissionError
validate_submission m =
    if is_blank m.run_id
    then some run_id_required
    else if is_blank m.match_id
    then some match_id_required
    else if is_blank m.game.game_id
    then some game_id_required
    else if is_blank m.game.game_version
    then some game_version_required
    else if is_blank m.game.ruleset_version
    then some ruleset_version_required
    else if length m.players == 0
    then some players_required
    else if is_blank m.output_dir
    then some output_dir_required
    else if not (is_positive m.attempt_count)
    then some attempt_count_not_positive
    else elim (validate_run_kind m m.run_kind) [
      | some e ↦ some e
      | none ↦ validate_players [] m.players
    ]

abbrev pub submitted_ids : List SubmittedPlayer → List String
submitted_ids = map λ p. p.player_id

-- A player with an id and an artifact.
abbrev pub IsIdentified : SubmittedPlayer → Type 0
IsIdentified p =
    (is_blank p.player_id ≡ false) × ((is_blank p.artifact_ref && is_blank p.artifact_id) ≡ false)

-- A first run is attempt 1 of no other run; a retry or rerun names the run it comes from.
abbrev pub IsFollowing : MatchSubmission → RunKind → Type 0
IsFollowing m initial = (m.attempt_count ≡ pos 1) × (is_blank m.parent_run_id ≡ true)
IsFollowing m retry = is_blank m.parent_run_id ≡ false
IsFollowing m rerun = is_blank m.parent_run_id ≡ false
IsFollowing m (other_kind _) = ⊥

abbrev Fresh : List String → List SubmittedPlayer → Type 0
Fresh seen = All λ p. contains p.player_id seen ≡ false

Fresh-append :
    (seen : List String) (a : String) (ps : List SubmittedPlayer)
    → Fresh (seen ++ a ∷ []) ps ↔ (Fresh seen ps) × (contains a (submitted_ids ps) ≡ false)
unfolding contains
Fresh-append seen a [] = ground arith
Fresh-append seen a (p ∷ ps) = ground (
  arith,
  Fresh-append seen a ps,
  contains-append p.player_id seen (a ∷ []),
  eq_iff a p.player_id,
  eq_iff p.player_id a,
)

validate_players_lem :
    (seen : List String) (ps : List SubmittedPlayer)
    → validate_players seen ps ≡ none
      ↔ (All IsIdentified ps) × Distinct (submitted_ids ps) × Fresh seen ps
unfolding validate_players
validate_players_lem seen [] = ground arith
validate_players_lem seen (p ∷ ps) =
    ground
      (arith, validate_players_lem (seen ++ p.player_id ∷ []) ps, Fresh-append seen p.player_id ps)

Fresh-empty : (ps : List SubmittedPlayer) → Fresh [] ps
unfolding contains
Fresh-empty [] = tt
Fresh-empty (p ∷ ps) = (refl, Fresh-empty ps)

validate_run_kind_lem :
    (m : MatchSubmission) (k : RunKind) → validate_run_kind m k ≡ none ↔ IsFollowing m k
unfolding validate_run_kind
validate_run_kind_lem m initial = ground arith
validate_run_kind_lem m retry = ground arith
validate_run_kind_lem m rerun = ground arith
validate_run_kind_lem m (other_kind _) = ground arith

-- What a submission must have to be queued.
pub record IsAdmissible (m : MatchSubmission) : Type 0 where
  pub named : (is_blank m.run_id ≡ false) × (is_blank m.match_id ≡ false)
  pub game :
      (is_blank m.game.game_id ≡ false)
      × (is_blank m.game.game_version ≡ false)
      × (is_blank m.game.ruleset_version ≡ false)
  pub output : is_blank m.output_dir ≡ false
  pub attempt : is_positive m.attempt_count ≡ true
  pub following : IsFollowing m m.run_kind
  pub some_player : m.players ≢ []
  pub identified : All IsIdentified m.players
  pub distinct : Distinct (submitted_ids m.players)

-- A submission passes ValidateSubmission exactly when it is admissible: run, match, game and output
-- are named, the attempt is positive and follows its run kind, and there are players, each with an
-- id of its own and an artifact.
pub validate_submission_lem : (m : MatchSubmission) → validate_submission m ≡ none ↔ IsAdmissible m
unfolding validate_submission
validate_submission_lem m = (
  λ h. record {
    named = ground arith;
    game = ground arith;
    output = ground arith;
    attempt = ground arith;
    following = ground (arith, validate_run_kind_lem m m.run_kind);
    some_player = ground arith;
    identified =
        ground (arith, validate_run_kind_lem m m.run_kind, validate_players_lem [] m.players);
    distinct =
        ground (arith, validate_run_kind_lem m m.run_kind, validate_players_lem [] m.players);
  },
  λ a. ground (
    arith,
    a.named,
    a.game,
    a.output,
    a.attempt,
    a.following,
    a.some_player,
    a.identified,
    a.distinct,
    validate_run_kind_lem m m.run_kind,
    validate_players_lem [] m.players,
    Fresh-empty m.players,
  ),
)
