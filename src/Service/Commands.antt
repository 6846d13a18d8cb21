-- ===== src/Service/Commands.antt =====
-- internal/platform/service/command.go and run_commands.go: submitting, canceling, retrying,
-- rerunning and promoting runs. The admission validator and the generator of run ids are arguments.
use ai_arena.Prelude.{
  ℕ, ◌+◌, suc, zero, String, false, Option, none, some, if◌then◌else◌, ◌==◌, trim_space, Result, ok,
  err,
}
use ai_arena.Prelude.Int.{ℤ, pos, negsuc}
use ai_arena.Service.Records.{
  MatchSubmission, QueueRecord, LifecycleState, RunKind, retry, rerun, completed, failed,
  same_state,
}
use ai_arena.Service.Store.{Store, StoreError, run_id_exists, enqueue, cancel_queued, promote, get}

pub data CommandError (V : Type 0) : Type 0 where
  -- These two wrap ErrBadRequest and ErrConflict.
  bad_request : V → CommandError V
  conflict : StoreError → CommandError V
  store_failed : StoreError → CommandError V
  -- They wrap ErrConflict.
  only_failed : CommandError V
  only_completed : CommandError V
  ranking_failed : V → CommandError V

abbrev pub max_int : ℕ
max_int = 9223372036854775807

-- AttemptCount++ on a 64-bit int.
abbrev pub increment : ℤ → ℤ
increment (pos n) = if n == max_int then negsuc max_int else pos (n + 1)
increment (negsuc zero) = pos 0
increment (negsuc (suc n)) = negsuc n

-- The submission of Retry and Rerun.
abbrev pub follow_up : RunKind → String → MatchSubmission → MatchSubmission
follow_up kind new_id m = record m {
  run_id = new_id;
  attempt_count = increment m.attempt_count;
  parent_run_id = m.run_id;
  run_kind = kind;
  official = false;
}

module _ {V : Type 0} where
  abbrev pub submit_error : StoreError → CommandError V
  submit_error (run_id_exists id) = conflict (run_id_exists id)
  submit_error e = store_failed e

  unfoldable pub submit :
      (MatchSubmission → Option V)
      → MatchSubmission
      → Store
      → Result (CommandError V) QueueRecord × Store
  submit validate m s = elim (validate m) [
    | some e ↦ (err (bad_request e), s)
    | none ↦
        let (added, s') = enqueue m s in
        elim added [ ok r ↦ (ok r, s') | err e ↦ (err (submit_error e), s') ]
  ]

  -- Retry and Rerun, from a run in the state that each asks for.
  unfoldable pub submit_follow_up :
      RunKind
      → LifecycleState
      → CommandError V
      → (MatchSubmission → Option V)
      → String
      → String
      → Store
      → Result (CommandError V) QueueRecord × Store
  submit_follow_up kind from refusal validate new_id run s = elim (get (trim_space run) s) [
    | err e ↦ (err (store_failed e), s)
    | ok r ↦
        if same_state r.state from
        then submit validate (follow_up kind new_id r.submission) s
        else (err refusal, s)
  ]

  abbrev pub retry_run :
      (MatchSubmission → Option V)
      → String
      → String
      → Store
      → Result (CommandError V) QueueRecord × Store
  retry_run = submit_follow_up retry failed only_failed

  abbrev pub rerun_run :
      (MatchSubmission → Option V)
      → String
      → String
      → Store
      → Result (CommandError V) QueueRecord × Store
  rerun_run = submit_follow_up rerun completed only_completed

  unfoldable pub cancel : String → Store → Result (CommandError V) QueueRecord × Store
  cancel run s =
      let (gone, s') = cancel_queued run s in
      elim gone [ ok r ↦ (ok r, s') | err e ↦ (err (store_failed e), s') ]

  -- `refresh` is RefreshCompletedRun of the ranking, if there is one.
  unfoldable pub promote_run :
      Option (QueueRecord → Option V) → String → Store → Result (CommandError V) QueueRecord × Store
  promote_run refresh run s =
      let (target, s') = promote (trim_space run) s in
      elim target [
        | err e ↦ (err (store_failed e), s')
        | ok r ↦ elim refresh [
          | none ↦ (ok r, s')
          | some f ↦ elim (f r) [ some e ↦ (err (ranking_failed e), s') | none ↦ (ok r, s') ]
        ]
      ]
