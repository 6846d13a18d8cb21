-- ===== src/Service/Worker.antt =====
-- internal/platform/service/worker.go: the work on one run. The runner, the persister and the
-- ranking are interfaces and so arguments. What other callers do to the queue store while the match
-- runs, and while its artifacts are written, is a list of operations.
-- The time that the n-th Claim or Update of the worker reads is `clock n`.
use ai_arena.Prelude.{
  ℕ, String, Bool, true, false, not, ◌&&◌, List, [], ◌∷◌, Option, none, some, ◌is◌, if◌then◌else◌,
  Dict, Result, ok, err,
}
use ai_arena.Contract.{MatchStatus}
use ai_arena.Match.{MatchRecord, ResultSummary, terminal_error}
use ai_arena.Service.Records.{
  MatchSubmission, QueueRecord, TerminalArtifacts, RunKind, rerun, running, persisting, completed,
  failed, same_state,
}
use ai_arena.Service.Store.{Store, StoreError, claim, update, list}
use ai_arena.Service.Lifecycle.{Operation, perform_all}

pub record ExecutionResult : Type 0 where
  pub record_of_match : MatchRecord
  pub player_stderr : Dict String

-- The interfaces of the worker, with errors of the type E.
pub record Environment (E : Type 0) : Type 0 where
  pub run : MatchSubmission → ExecutionResult × Option E
  pub persist : MatchSubmission → ExecutionResult → Result E TerminalArtifacts
  pub apply_completed : Option (MatchSubmission → ResultSummary → Option E)

pub data WorkerError (E : Type 0) : Type 0 where
  store_failed : StoreError → WorkerError E
  run_failed : E → WorkerError E
  no_terminal_record : WorkerError E
  mismatched_match_id : String → WorkerError E
  persist_failed : E → WorkerError E
  ranking_failed : E → WorkerError E

-- What ProcessNext returns, where `none` is the zero record, and the store after it.
abbrev pub Reply : Type 0 → Type 0
Reply E = Option QueueRecord × Option (WorkerError E) × Store

abbrev pub is_match_completed : MatchStatus → Bool
is_match_completed MatchStatus.completed = true
is_match_completed _ = false

abbrev pub is_rerun : RunKind → Bool
is_rerun rerun = true
is_rerun _ = false

-- The loop of shouldAutoPromote: no other run of the match is completed and official.
unfoldable pub no_other_official : MatchSubmission → List QueueRecord → Bool
no_other_official m [] = true
no_other_official m (r ∷ rs) =
    let rest = no_other_official m rs in
    if not (r.submission.match_id is m.match_id)
    then rest
    else if r.submission.run_id is m.run_id
    then rest
    else if same_state r.state completed && r.submission.official
    then false
    else rest

-- The in-memory List has no error.
unfoldable pub should_auto_promote : QueueRecord → Store → Bool
should_auto_promote r s =
    if is_rerun r.submission.run_kind then false else no_other_official r.submission (list s)

unfoldable pub summary_from_record : ExecutionResult → ResultSummary
summary_from_record result =
    let r = result.record_of_match in
    record {
      match_id = r.match_id;
      game_id = r.game.game_id;
      game_version = r.game.game_version;
      ruleset_version = r.game.ruleset_version;
      status = r.status;
      turn = r.snapshot.turn;
      placements = r.placements;
      error = terminal_error r;
    }

-- The completed record, with its artifacts.
unfoldable pub completed_record :
    QueueRecord → ExecutionResult → TerminalArtifacts → Store → QueueRecord
completed_record r result artifacts s =
    let m = result.record_of_match in
    record r {
      state = completed;
      terminal = some (record artifacts { match_status = m.status; error = terminal_error m });
      submission =
          if is_match_completed m.status
          then record r.submission { official = should_auto_promote r s }
          else r.submission;
    }

module _ {E : Type 0} where
  abbrev pub run_error : Option E → Option (WorkerError E)
  run_error none = none
  run_error (some e) = some (run_failed e)

  -- The record is written as failed, and the error is returned with it.
  unfoldable pub fail_run : QueueRecord → WorkerError E → ℕ → Store → Reply E
  fail_run r e now s =
      let r' = record r { state = failed } in
      let (done, s') = update r' now s in
      elim done [ err x ↦ (none, some (store_failed x), s') | ok _ ↦ (some r', some e, s') ]

  -- The ranking of an official completed run, and the error of the run.
  unfoldable pub rank : Environment E → QueueRecord → ExecutionResult → Option E → Store → Reply E
  rank env r result run_err s =
      if is_match_completed result.record_of_match.status && r.submission.official
      then elim env.apply_completed [
        | none ↦ (some r, run_error run_err, s)
        | some apply ↦ elim (apply r.submission (summary_from_record result)) [
          | some e ↦ (some r, some (ranking_failed e), s)
          | none ↦ (some r, run_error run_err, s)
        ]
      ]
      else (some r, run_error run_err, s)

  unfoldable pub complete :
      Environment E
      → QueueRecord
      → ExecutionResult
      → Option E
      → TerminalArtifacts
      → ℕ
      → Store
      → Reply E
  complete env r result run_err artifacts now s =
      let r' = completed_record r result artifacts s in
      let (done, s') = update r' now s in
      elim done [ err x ↦ (none, some (store_failed x), s') | ok _ ↦ rank env r' result run_err s' ]

  unfoldable pub persist_run :
      Environment E
      → QueueRecord
      → ExecutionResult
      → Option E
      → List Operation
      → (ℕ → ℕ)
      → Store
      → Reply E
  persist_run env r result run_err during clock s =
      let r' = record r { state = persisting } in
      let (done, s') = update r' (clock 2) s in
      let s'' = perform_all during s' in
      elim done [
        | err x ↦ (none, some (store_failed x), s')
        | ok _ ↦ elim (env.persist r.submission result) [
          | err e ↦ fail_run r' (persist_failed e) (clock 3) s''
          | ok artifacts ↦ complete env r' result run_err artifacts (clock 3) s''
        ]
      ]

  abbrev pub or_no_record : Option E → WorkerError E
  or_no_record none = no_terminal_record
  or_no_record (some e) = run_failed e

  unfoldable pub after_run :
      Environment E
      → QueueRecord
      → ExecutionResult
      → Option E
      → List Operation
      → (ℕ → ℕ)
      → Store
      → Reply E
  after_run env r result run_err during clock s =
      let id = result.record_of_match.match_id in
      if id is ""
      then fail_run r (or_no_record run_err) (clock 2) s
      else if id is r.submission.match_id
      then persist_run env r result run_err during clock s
      else fail_run r (mismatched_match_id id) (clock 2) s

  unfoldable pub process_claimed :
      Environment E → QueueRecord → List Operation → List Operation → (ℕ → ℕ) → Store → Reply E
  process_claimed env r during_run during_persist clock s =
      let r' = record r { state = running } in
      let (done, s') = update r' (clock 1) s in
      let (result, run_err) = env.run r.submission in
      elim done [
        | err x ↦ (none, some (store_failed x), s')
        | ok _ ↦ after_run env r' result run_err during_persist clock (perform_all during_run s')
      ]

  unfoldable pub process_next :
      Environment E → String → List Operation → List Operation → (ℕ → ℕ) → Store → Reply E
  process_next env worker during_run during_persist clock s =
      let (claimed, s') = claim worker (clock 0) s in
      elim claimed [
        | err x ↦ (none, some (store_failed x), s')
        | ok r ↦ process_claimed env r during_run during_persist clock s'
      ]
