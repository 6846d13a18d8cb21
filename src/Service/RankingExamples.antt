-- ===== src/Service/RankingExamples.antt =====
-- A ranking on a concrete match, and the work on a run.
use ai_arena.Prelude.{
  ℕ, ◌+◌, String, true, false, [], ◌∷◌, ◌++◌, none, some, ◌≡◌, refl, inl, arith, lookup, insert,
  contains, is_blank, trim_space, trim_left, trim_right, ok, err,
}
use ai_arena.Prelude.Int.{pos}
use ai_arena.Json.{no_bytes}
use ai_arena.Contract.{MatchStatus}
use ai_arena.Match.{MatchRecord, ResultSummary}
use ai_arena.Service.Records.{QueueRecord, retry, failed, queued, same_state}
use ai_arena.Service.Store.{Store, enqueue, get}
use ai_arena.Service.Lifecycle.{beating, enqueuing}
use ai_arena.Service.Worker.{Environment, process_next}
use ai_arena.Service.Working.{Ends, process_next-Ends}
use ai_arena.Service.Commands.{submit_follow_up, submit, follow_up, only_failed, increment}
use ai_arena.Service.FollowUps.{submit_follow_up_lem, follow_up-IsAdmissible}
use ai_arena.Service.Submissions.{
  validate_submission, validate_submission_lem, IsAdmissible, validate_players, validate_run_kind,
}
use ai_arena.Service.Ranking.{
  RankingSnapshot, RankingUpdate, normalize_snapshot, count_update, apply_ranking_update,
  normalize_scope, RankingScope,
}
use ai_arena.Service.RankingCounts.{IsRanked, apply_ranking_update-IsRanked}
use ai_arena.Service.RankingOnce.{apply_ranking_update_once}
use ai_arena.Service.Examples.{submission, two, two-IsSound, leased_record, one_leased, first_claim}

abbrev scope : RankingScope
scope = record { game_id = "janken"; game_version = "2.1.0"; ruleset_version = "regular" }

abbrev first_update : RankingUpdate
first_update = record {
  scope = scope;
  run_id = "run-1";
  match_id = "match-1";
  status = MatchStatus.completed;
  placements = record { bot_id = "bot-1"; bot_name = "Ann"; player_id = "ann"; place = pos 1 } ∷ [];
}

abbrev empty : RankingSnapshot
empty = record {
  version = 2;
  scope = scope;
  applied_run_ids = [];
  applied_match_ids = [];
  last_applied_run_id = "";
  last_applied_match_id = "";
  completed_matches = 0;
  entries = [];
}

abbrev ranked : RankingSnapshot
ranked = count_update (normalize_snapshot empty) first_update

applies : apply_ranking_update empty first_update ≡ ok ranked
unfolding apply_ranking_update normalize_snapshot normalize_scope trim_space trim_left trim_right
    contains
applies = refl

apply_ranking_update-IsRanked_example : IsRanked ranked
apply_ranking_update-IsRanked_example =
    apply_ranking_update-IsRanked empty ranked first_update tt applies

apply_ranking_update_once_example : apply_ranking_update ranked first_update ≡ ok ranked
apply_ranking_update_once_example = apply_ranking_update_once empty ranked first_update applies

abbrev summary : ResultSummary
summary = record {
  match_id = "match-1";
  game_id = "janken";
  game_version = "2.1.0";
  ruleset_version = "regular";
  status = MatchStatus.completed;
  turn = pos 5;
  placements = record { player_id = "ann"; place = pos 1 } ∷ [];
  error = "";
}

-- A match that ran to its end, whose artifacts cannot be written.
abbrev played_match : MatchRecord
played_match = record {
  match_id = "match-1";
  game = record { game_id = "janken"; game_version = "2.1.0"; ruleset_version = "regular" };
  players = [];
  status = MatchStatus.completed;
  placements = [];
  event_log = [];
  snapshot = record {
    match_id = "";
    game_id = "";
    game_version = "";
    ruleset_version = "";
    turn = pos 5;
    status = MatchStatus.completed;
    game_state = no_bytes;
    per_player = [];
  };
  exported_snapshot = record {
    match_id = "";
    game_id = "";
    game_version = "";
    ruleset_version = "";
    turn = pos 5;
    status = MatchStatus.completed;
    public_state = no_bytes;
    players = [];
  };
  public_replay = none;
}

abbrev environment : Environment String
environment = record {
  run = λ m. (record { record_of_match = played_match; player_stderr = [] }, none);
  persist = λ m r. err "disk full";
  apply_completed = none;
}

abbrev ticking : ℕ → ℕ
ticking n = 7 + n

process_next-Ends_example : Ends "run-1" (
    process_next environment "worker"
      (beating "run-1" "worker" 8 ∷ [])
      (enqueuing (submission "run-3") ∷ [])
      ticking
      two)
process_next-Ends_example =
    process_next-Ends environment "worker" (beating "run-1" "worker" 8 ∷ [])
      (enqueuing (submission "run-3") ∷ []) ticking two one_leased (leased_record "run-1")
      two-IsSound first_claim (tt, tt) (tt, tt)

-- A failed run, and its retry.
abbrev failed_record : QueueRecord
failed_record = record (leased_record "run-1") { state = failed }

abbrev one_failed : Store
one_failed = record { all = "run-1" ∷ []; order = []; records = ("run-1", failed_record) ∷ [] }

abbrev retried : QueueRecord
retried = record {
  submission = follow_up retry "run-9" (submission "run-1");
  state = queued;
  completed_at = none;
  lease = none;
  terminal = none;
}

abbrev with_retry : Store
with_retry = record {
  all = "run-1" ∷ "run-9" ∷ [];
  order = "run-9" ∷ [];
  records = ("run-1", failed_record) ∷ ("run-9", retried) ∷ [];
}

retries :
    submit_follow_up retry failed only_failed validate_submission "run-9" " run-1" one_failed
    ≡ (ok retried, with_retry)
unfolding submit_follow_up submit enqueue get validate_submission validate_players validate_run_kind
    trim_space trim_left trim_right contains lookup insert is_blank
retries = refl

submit_follow_up_lem_example :
    (old : QueueRecord) × (lookup (trim_space " run-1") one_failed.records ≡ some old)
    × (same_state old.state failed ≡ true)
    × (retried.submission ≡ record (old.submission) {
      run_id = "run-9";
      attempt_count = increment old.submission.attempt_count;
      parent_run_id = old.submission.run_id;
      run_kind = retry;
      official = false;
    })
    × (queued ≡ queued)
    × (with_retry.order ≡ [] ++ "run-9" ∷ [])
    × (lookup "run-9" with_retry.records ≡ some retried)
    × ((j : String) (x : QueueRecord)
        → lookup j one_failed.records ≡ some x
        → lookup j with_retry.records ≡ some x)
submit_follow_up_lem_example =
    submit_follow_up_lem validate_submission retry failed only_failed "run-9" " run-1" one_failed
      with_retry retried retries

admissible : IsAdmissible (submission "run-1")
unfolding validate_submission validate_players validate_run_kind trim_space trim_left trim_right
    contains is_blank
admissible = (validate_submission_lem (submission "run-1")).0 refl

follow_up-IsAdmissible_example :
    validate_submission (follow_up retry "run-9" (submission "run-1")) ≡ none
unfolding is_blank trim_space trim_left trim_right
follow_up-IsAdmissible_example =
    follow_up-IsAdmissible retry "run-9" (submission "run-1") (inl refl) refl (ground arith)
      admissible
