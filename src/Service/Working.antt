-- ===== src/Service/Working.antt =====
-- What becomes of the run that a worker claims.
use ai_arena.Prelude.{
  ℕ, String, List, Option, none, some, ◌is◌, All, lookup-insert, ok, ◌≡◌, refl, ap, sym, subst,
  arith, eq_iff, Option-cases, Result-cases, Bool-cases, inl, inr, ◌⊎◌,
}
use ai_arena.Service.Records.{
  QueueRecord, TerminalArtifacts, LifecycleState, leased, running, persisting, completed, failed,
  validate_transition,
}
use ai_arena.Service.Store.{Store, claim, update, completion, lease_to}
use ai_arena.Service.Soundness.{IsSound}
use ai_arena.Service.Claims.{claimed}
use ai_arena.Service.Lifecycle.{Operation, perform_all}
use ai_arena.Service.Quiet.{IsQuiet, InState, perform_all-InState}
use ai_arena.Service.Worker.{
  Environment, ExecutionResult, WorkerError, Reply, fail_run, rank, complete, completed_record,
  persist_run, after_run, process_claimed, process_next, summary_from_record, or_no_record,
  persist_failed, mismatched_match_id,
}

-- An allowed update succeeds, and the store has the record in its new state.
update_ok :
    (next : QueueRecord) (now : ℕ) (s : Store) (st : LifecycleState)
    → InState next.submission.run_id st s
    → validate_transition st next.state ≡ none
    → ((update next now s).0 ≡ ok tt)
      × InState next.submission.run_id next.state (update next now s).1
unfolding update
update_ok next now s st (old, h, e) v =
    let id = next.submission.run_id in
    let r = record next { completed_at = completion old.completed_at next.state now } in
    (
      ground (arith, h, e, v),
      (r, ground (arith, h, e, v, eq_iff id id, lookup-insert id id r s.records), refl),
    )

-- The reply has a record that is completed or failed, and so has the store under the run.
abbrev pub Ends : {E : Type 0} → String → Reply E → Type 0
Ends run (r, e, s) =
    (x : QueueRecord) × (r ≡ some x)
    × ((x.state ≡ completed) ⊎ (x.state ≡ failed))
    × InState run x.state s

module _ {E : Type 0} (env : Environment E) where
  fail_run-Ends :
      (r : QueueRecord) (e : WorkerError E) (now : ℕ) (s : Store) (st : LifecycleState)
      → InState r.submission.run_id st s
      → validate_transition st failed ≡ none
      → Ends r.submission.run_id (fail_run r e now s)
  unfolding fail_run
  fail_run-Ends r e now s st p v =
      let r' = record r { state = failed } in
      let (done, stored) = update_ok r' now s st p v in
      rw (done, fail_run) (r', refl, inr refl, stored)

  rank_keeps :
      (r : QueueRecord) (result : ExecutionResult) (run_err : Option E) (s : Store)
      → ((rank env r result run_err s).0 ≡ some r) × ((rank env r result run_err s).2 ≡ s)
  unfolding rank
  rank_keeps r result run_err s = elim (Option-cases env.apply_completed) [
    | inl e ↦ ground (arith, e)
    | inr (apply, e) ↦ elim (Option-cases (apply r.submission (summary_from_record result))) [
      | inl f ↦ (rw (e, f, rank) (ground arith), rw (e, f, rank) (ground arith))
      | inr (x, f) ↦ (rw (e, f, rank) (ground arith), rw (e, f, rank) (ground arith))
    ]
  ]

  completed_record_keeps :
      (r : QueueRecord) (result : ExecutionResult) (t : TerminalArtifacts) (s : Store)
      → ((completed_record r result t s).submission.run_id ≡ r.submission.run_id)
        × ((completed_record r result t s).state ≡ completed)
  unfolding completed_record
  completed_record_keeps r result t s = ground arith

  complete-Ends :
      (r : QueueRecord) (result : ExecutionResult) (run_err : Option E) (t : TerminalArtifacts)
      (now : ℕ) (s : Store)
      → InState r.submission.run_id persisting s
      → Ends r.submission.run_id (complete env r result run_err t now s)
  unfolding complete
  complete-Ends r result run_err t now s p =
      let r' = completed_record r result t s in
      let (same, state) = completed_record_keeps r result t s in
      let (done, stored) =
        update_ok r' now s persisting (subst (λ i. InState i persisting s) (sym same) p)
          (ground (arith, state)) in
      let s' = (update r' now s).1 in
      let (kept, left) = rank_keeps r' result run_err s' in
      rw (done, complete)
        (
          r',
          kept,
          inl state,
          subst (λ i. InState i r'.state (rank env r' result run_err s').2) same
              (subst (InState r'.submission.run_id r'.state) (sym left) stored),
        )

  persist_run-Ends :
      (r : QueueRecord) (result : ExecutionResult) (run_err : Option E) (during : List Operation)
      (clock : ℕ → ℕ) (s : Store)
      → All (IsQuiet r.submission.run_id) during
      → InState r.submission.run_id running s
      → Ends r.submission.run_id (persist_run env r result run_err during clock s)
  unfolding persist_run
  persist_run-Ends r result run_err during clock s q p =
      let r' = record r { state = persisting } in
      let (done, stored) = update_ok r' (clock 2) s running p refl in
      let kept =
        perform_all-InState r.submission.run_id persisting during (update r' (clock 2) s).1 refl q
          stored in
      elim (Result-cases (env.persist r.submission result)) [
        | inl (e, h) ↦
            rw (done, h, persist_run)
              (fail_run-Ends r' (persist_failed e) (clock 3)
                (perform_all during (update r' (clock 2) s).1) persisting kept refl)
        | inr (t, h) ↦
            rw (done, h, persist_run)
              (complete-Ends r' result run_err t (clock 3)
                (perform_all during (update r' (clock 2) s).1) kept)
      ]

  after_run-Ends :
      (r : QueueRecord) (result : ExecutionResult) (run_err : Option E) (during : List Operation)
      (clock : ℕ → ℕ) (s : Store)
      → All (IsQuiet r.submission.run_id) during
      → InState r.submission.run_id running s
      → Ends r.submission.run_id (after_run env r result run_err during clock s)
  unfolding after_run
  after_run-Ends r result run_err during clock s q p =
      let id = result.record_of_match.match_id in
      elim (Bool-cases (id is "")) [
        | inl e ↦
            rw (e, after_run) (fail_run-Ends r (or_no_record run_err) (clock 2) s running p refl)
        | inr e ↦ elim (Bool-cases (id is r.submission.match_id)) [
          | inl f ↦ rw (e, f, after_run) (persist_run-Ends r result run_err during clock s q p)
          | inr f ↦
              rw (e, f, after_run)
                (fail_run-Ends r (mismatched_match_id id) (clock 2) s running p refl)
        ]
      ]

  process_claimed-Ends :
      (r : QueueRecord) (during_run during_persist : List Operation) (clock : ℕ → ℕ) (s : Store)
      → All (IsQuiet r.submission.run_id) during_run
      → All (IsQuiet r.submission.run_id) during_persist
      → InState r.submission.run_id leased s
      → Ends r.submission.run_id (process_claimed env r during_run during_persist clock s)
  unfolding process_claimed
  process_claimed-Ends r during_run during_persist clock s q q' p =
      let r' = record r { state = running } in
      let (done, stored) = update_ok r' (clock 1) s leased p refl in
      let kept =
        perform_all-InState r.submission.run_id running during_run (update r' (clock 1) s).1 refl q
          stored in
      rw (done, process_claimed)
        (after_run-Ends r' (env.run r.submission).0 (env.run r.submission).1 during_persist clock
          (perform_all during_run (update r' (clock 1) s).1) q' kept)

-- Whatever the runner, the persister and the ranking do, a run that a worker claims from a sound
-- store ends: ProcessNext returns its record as completed or failed, with that state stored, if
-- meanwhile nobody else updates that run or recovers its lease.
pub process_next-Ends :
    {E : Type 0} (env : Environment E) (worker : String)
    (during_run during_persist : List Operation) (clock : ℕ → ℕ) (s s' : Store) (r : QueueRecord)
    → IsSound s
    → claim worker (clock 0) s ≡ (ok r, s')
    → All (IsQuiet r.submission.run_id) during_run
    → All (IsQuiet r.submission.run_id) during_persist
    → Ends r.submission.run_id (process_next env worker during_run during_persist clock s)
unfolding process_next
process_next-Ends env worker during_run during_persist clock s s' r sound h q q' =
    let (id, old, found, waiting, made, written) = claimed worker (clock 0) s s' r h in
    let done : (claim worker (clock 0) s).0 ≡ ok r = ap (λ p. p.0) h in
    let left : (claim worker (clock 0) s).1 ≡ s' = ap (λ p. p.1) h in
    rw (done, left, process_next)
      (process_claimed-Ends env r during_run during_persist clock s' q q' (
        lease_to worker (clock 0) old,
        ground (
          arith,
          made,
          written,
          sound.keyed id old found,
          eq_iff id id,
          lookup-insert id id (lease_to worker (clock 0) old) s.records,
        ),
        refl,
      ))
