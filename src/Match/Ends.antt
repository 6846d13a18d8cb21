-- ===== src/Match/Ends.antt =====
-- internal/platform/match/match.go: how a run ends, and what its record says of it.
use ai_arena.Prelude.{ℕ, [], Option, none, some, ◌≡◌, refl, sym, Result, ok, err, ap, ◌∙◌, subst}
use ai_arena.Prelude.Int.{pos}
use ai_arena.Contract.{GameMetadata, MatchStatus}
use ai_arena.Match.{terminal_error}
use ai_arena.Match.World.{World, Runner, RunError}
use ai_arena.Match.Events.{err_string}
use ai_arena.Match.Running.{initialize_sessions, run_decision_loop}
use ai_arena.Match.Runs.{
  Outcome, build_record, deferred, conclude, started_payload, start_run, run_loop, run,
}
use ai_arena.Match.Traces.{Logs, trace_of, IfSome, append_event-Keeps}
use ai_arena.Match.EndTraces.{initialize_sessions-KeepsLog, decision_rounds-Logs}
use ai_arena.Match.RunTraces.{IsFinalLog, told}
use ai_arena.Match.Endings.{Ended, conclude_lem}

module _ {S E : Type 0} (w : World S E) where
  -- A runner that has not run.
  abbrev pub IsNew : Runner S E → Type 0
  IsNew r = (r.events ≡ []) × (r.next_seq ≡ 0) × (r.terminal_err ≡ none)

  IsNew-Logs : (r : Runner S E) → IsNew r → Logs r.status none (trace_of r)
  IsNew-Logs r n = record {
    numbered = rw n.0 tt;
    counted = rw (n.0, n.1);
    quiet = rw n.0 tt;
    standing = refl;
    ended = n.2;
  }

  loop-Logs :
      (fuel : ℕ) (r : Runner S E) (st : MatchStatus)
      → Logs st none (trace_of r)
      → IfSome (λ x. Logs st none (trace_of x.1)) (run_decision_loop w fuel r)
  unfolding run_decision_loop
  loop-Logs fuel r st h =
      decision_rounds-Logs w fuel st none (record r { phase = MatchStatus.running }) h

  -- What the initialization and the decision loop returned, and the runner that they left, from what
  -- the initialization did.
  pub data Played (fuel : ℕ)
      : Result (RunError E) (Unit {0}) × Runner S E
        → Result (RunError E) (Unit {0})
        → Runner S E
        → Type 0 where
    not_begun : (e : RunError E) (r : Runner S E) → Played fuel (err e, r) (err e) r
    begun :
        (r after : Runner S E) (result : Result (RunError E) (Unit {0}))
        → run_decision_loop w fuel r ≡ some (result, after)
        → Played fuel (ok tt, r) result after

  -- The record of a match that ended.
  pub record IsRecorded (fuel : ℕ) (x : Result (RunError E) (Unit {0}) × Runner S E)
      (o : Outcome S E) : Type 0 where
    pub result : Result (RunError E) (Unit {0})
    pub after : Runner S E
    pub reached : Played fuel x result after
    pub ended : Ended w after result o.run_err o.match_record.status o.runner.terminal_err
    pub log : IsFinalLog o.match_record.status o.match_record.event_log
    pub telling : terminal_error o.match_record ≡ err_string w o.runner.terminal_err

  told_lem :
      (te : Option (RunError E)) → elim (told w te) [ none ↦ "" | some t ↦ t ] ≡ err_string w te
  unfolding err_string
  told_lem none = refl
  told_lem (some e) = refl

  deferred_lem :
      (meta : GameMetadata) (fuel : ℕ) (x : Result (RunError E) (Unit {0}) × Runner S E)
      (result : Result (RunError E) (Unit {0})) (r : Runner S E) {st : MatchStatus}
      → Played fuel x result r
      → Logs st none (trace_of r)
      → IsRecorded fuel x (deferred w meta (conclude w result r))
  unfolding deferred build_record terminal_error
  deferred_lem meta fuel x result r p h =
      let wound = conclude_lem w result r h in
      record {
        result = result;
        after = r;
        reached = p;
        ended = rw (wound.standing, wound.final_error) wound.because;
        log = rw wound.standing wound.log;
        telling =
            ap (λ o. elim o [ none ↦ "" | some t ↦ t ]) wound.telling
            ∙ told_lem wound.error
            ∙ ap (err_string w) (sym wound.final_error);
      }

  loop-IsRecorded :
      (meta : GameMetadata) (fuel : ℕ) (r : Runner S E) (st : MatchStatus)
      (found : Option (Result (RunError E) (Unit {0}) × Runner S E))
      → run_decision_loop w fuel r ≡ found
      → IfSome (λ x. Logs st none (trace_of x.1)) found
      → IfSome
          (IsRecorded fuel (ok tt, r))
          (elim (elim found as (λ _. Option (Option (RunError E) × Runner S E)) [
            | none ↦ none
            | some (result, after) ↦ some (conclude w result after)
          ]) [ none ↦ none | some concluded ↦ some (deferred w meta concluded) ])
  loop-IsRecorded meta fuel r st none e h = tt
  loop-IsRecorded meta fuel r st (some (result, after)) e h =
      deferred_lem meta fuel (ok tt, r) result after (begun r after result e) h

  run_loop-IsRecorded :
      (meta : GameMetadata) (fuel : ℕ) (result : Result (RunError E) (Unit {0})) (r : Runner S E)
      (st : MatchStatus)
      → Logs st none (trace_of r)
      → IfSome (IsRecorded fuel (result, r)) (elim (run_loop w fuel (result, r)) [
        | none ↦ none
        | some concluded ↦ some (deferred w meta concluded)
      ])
  unfolding run_loop
  run_loop-IsRecorded meta fuel (err e) r st h =
      deferred_lem meta fuel (err e, r) (err e) r (not_begun e r) h
  run_loop-IsRecorded meta fuel (ok _) r st h =
      loop-IsRecorded meta fuel r st (run_decision_loop w fuel r) refl (loop-Logs fuel r st h)

  -- What the initialization of a run did.
  abbrev pub initialized : Runner S E → Result (RunError E) (Unit {0}) × Runner S E
  initialized r = initialize_sessions w (w.metadata r.world) (start_run w (w.metadata r.world) r)

  run-IsRecorded :
      (fuel : ℕ) (r : Runner S E)
      → IsNew r
      → IfSome (IsRecorded fuel (initialized r)) (run w fuel r)
  unfolding run start_run
  run-IsRecorded fuel r n =
      let meta = w.metadata r.world in
      let started = start_run w meta r in
      let x = initialize_sessions w meta started in
      let logs : Logs r.status none (trace_of x.1) =
        (initialize_sessions-KeepsLog w meta).keeps r.status none started (
          append_event-Keeps w "match_started" (pos 0) ""
            (started_payload meta r.match_id r.players) refl r.status none r (IsNew-Logs r n)) in
      run_loop-IsRecorded meta fuel x.0 x.1 r.status logs

  recorded :
      (fuel : ℕ) (r : Runner S E) (o : Outcome S E)
      → IsNew r
      → run w fuel r ≡ some o
      → IsRecorded fuel (initialized r) o
  recorded fuel r o n e =
      subst (IfSome (IsRecorded fuel (initialized r))) e (run-IsRecorded fuel r n)

  -- A run of a runner that has not run, whatever the game master, the sessions, the context and the
  -- observer do: the log of the record it returns is numbered from 1 on without a gap, its last
  -- event and no other is terminal, and that event tells the status of the record, which is
  -- completed, failed or canceled.
  pub run_log :
      (fuel : ℕ) (r : Runner S E) (o : Outcome S E)
      → IsNew r
      → run w fuel r ≡ some o
      → IsFinalLog o.match_record.status o.match_record.event_log
  run_log fuel r o n e = (recorded fuel r o n e).log

  -- A run of a runner that has not run, by what the initialization of its sessions, and then its
  -- decision loop, returned. When they return no error the run returns none, and the match is
  -- completed, or failed with the error of reading its final state when it cannot be read. When they
  -- return an error: if the context is done, the match is canceled and the run returns the error of
  -- the context; if the error is a cancellation, the match is canceled and the run returns it;
  -- otherwise the match is failed and the run returns it. The error that the run returns is then the
  -- one that ended the match.
  pub run_ended :
      (fuel : ℕ) (r : Runner S E) (o : Outcome S E)
      → IsNew r
      → run w fuel r ≡ some o
      → (result : Result (RunError E) (Unit {0})) × (after : Runner S E) × Played fuel
          (initialized r)
          result
          after
        × Ended w after result o.run_err o.match_record.status o.runner.terminal_err
  run_ended fuel r o n e =
      let made = recorded fuel r o n e in (made.result, made.after, made.reached, made.ended)

  -- The error that the artifacts read back from the log of a run of a runner that has not run is the
  -- text of the error that ended it, and is empty when none did.
  pub terminal_error-run :
      (fuel : ℕ) (r : Runner S E) (o : Outcome S E)
      → IsNew r
      → run w fuel r ≡ some o
      → terminal_error o.match_record ≡ err_string w o.runner.terminal_err
  terminal_error-run fuel r o n e = (recorded fuel r o n e).telling
