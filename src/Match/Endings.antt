-- ===== src/Match/Endings.antt =====
-- internal/platform/match/match.go: how a match ends, from what its decision loop returned.
use ai_arena.Prelude.{
  true, false, arith, Option, none, some, ◌≡◌, refl, inl, inr, Result, ok, err, Bool-cases,
  Option-cases,
}
use ai_arena.Contract.{MatchStatus}
use ai_arena.Match.World.{World, Runner, RunError, external}
use ai_arena.Match.Finishing.{
  capture_final_state, note_capture, shutdown_sessions, shutdown_game_master,
}
use ai_arena.Match.Runs.{classify_terminal_error, is_canceled_error, end_as, wind_down, conclude}
use ai_arena.Match.Traces.{Logs, trace_of}
use ai_arena.Match.EndTraces.{
  capture_final_state-KeepsLog, shutdown_sessions-Keeps, shutdown_game_master-Keeps,
}
use ai_arena.Match.RunTraces.{
  Shape, success, failure, cancellation, Why, IsWound, IsEnding, emit_terminal_event_lem, restated,
  note_capture_lem, IsEnding-Keeps,
}

module _ {S E : Type 0} (w : World S E) where
  -- A match that was played to its end, before its final state is captured.
  abbrev pub finished : Runner S E → Runner S E
  finished r = record r { phase = MatchStatus.finishing; status = MatchStatus.completed }

  -- How a run ends, from what the initialization and the decision loop returned and the runner that
  -- they left: the error that the run returns, the status, and the error that ended the match.
  pub data Ended (r : Runner S E)
      : Result (RunError E) (Unit {0})
        → Option (RunError E)
        → MatchStatus
        → Option (RunError E)
        → Type 0 where
    played :
        (capture_final_state w (finished r)).0 ≡ ok tt
        → Ended r (ok tt) none MatchStatus.completed none
    -- The final state cannot be read.
    lost :
        (x : RunError E)
        → (capture_final_state w (finished r)).0 ≡ err x
        → Ended r (ok tt) none MatchStatus.failed (some x)
    -- The context is done.
    interrupted :
        (e : RunError E) (x : E)
        → w.context_error r.world ≡ some x
        → Ended r (err e) (some (external x)) MatchStatus.canceled (some (external x))
    -- The error itself is a cancellation.
    canceled :
        (e : RunError E)
        → w.context_error r.world ≡ none
        → is_canceled_error w e ≡ true
        → Ended r (err e) (some e) MatchStatus.canceled (some e)
    failed :
        (e : RunError E)
        → w.context_error r.world ≡ none
        → is_canceled_error w e ≡ false
        → Ended r (err e) (some e) MatchStatus.failed (some e)

  abbrev Completed : Why w
  Completed st te = (st ≡ MatchStatus.completed) × (te ≡ none)

  wind_down_lem :
      (before after : Why w) (r : Runner S E)
      → ((capture_final_state w r).0 ≡ ok tt
          → before MatchStatus.completed none
          → after MatchStatus.completed none)
      → ((x : RunError E)
          → (capture_final_state w r).0 ≡ err x
          → before MatchStatus.completed none
          → after MatchStatus.failed (some x))
      → ((st : MatchStatus) (e : RunError E) → before st (some e) → after st (some e))
      → IsEnding w before r
      → IsWound w after (wind_down w r)
  unfolding wind_down
  wind_down_lem before after r kept unread same i =
      let captured = (capture_final_state w r).0 in
      let left = (capture_final_state w r).1 in
      let noted = note_capture w captured left in
      emit_terminal_event_lem w after (shutdown_game_master w (shutdown_sessions w noted)) (
        IsEnding-Keeps w after (shutdown_game_master w) (shutdown_sessions w noted)
          (shutdown_game_master-Keeps w)
          (IsEnding-Keeps w after (shutdown_sessions w) noted (shutdown_sessions-Keeps w) (
            note_capture_lem w before after captured left kept unread same (
              IsEnding-Keeps w before (λ x. (capture_final_state w x).1) r
                ((capture_final_state-KeepsLog w).keeps) i))))

  end_as_lem :
      (why : Why w) (status : MatchStatus) (e : RunError E) (r : Runner S E) {st : MatchStatus}
      → Shape status (some e)
      → why status (some e)
      → Logs st none (trace_of r)
      → IsEnding w why (end_as status e r)
  unfolding end_as
  end_as_lem why status e r s d h = record {
    status = status;
    error = some e;
    shape = s;
    because = d;
    logs = restated w (trace_of r) status (some e) h;
  }

  classify_lem :
      (e : RunError E) (r : Runner S E) {st : MatchStatus}
      → Logs st none (trace_of r)
      → IsEnding w
          (Ended r (err e) (some (classify_terminal_error w e r).0))
          (classify_terminal_error w e r).1
  unfolding classify_terminal_error
  classify_lem e r h = elim (Option-cases (w.context_error r.world)) [
    | inl p ↦ elim (Bool-cases (is_canceled_error w e)) [
      | inl c ↦
          rw (p, c, classify_terminal_error)
            (end_as_lem (Ended r (err e) (some e)) MatchStatus.canceled e r (cancellation e)
              (canceled e p c) h)
      | inr c ↦
          rw (p, c, classify_terminal_error)
            (end_as_lem (Ended r (err e) (some e)) MatchStatus.failed e r (failure e) (failed e p c)
              h)
    ]
    | inr (x, p) ↦
        rw (p, classify_terminal_error)
          (end_as_lem (Ended r (err e) (some (external x))) MatchStatus.canceled (external x) r
            (cancellation (external x)) (interrupted e x p) h)
  ]

  not_completed :
      (why : Why w) (st : MatchStatus) (e : RunError E) → Completed st (some e) → why st (some e)
  not_completed why st e c = absurd (ground (arith, c.1))

  pub conclude_lem :
      (result : Result (RunError E) (Unit {0})) (r : Runner S E) {st : MatchStatus}
      → Logs st none (trace_of r)
      → IsWound w (Ended r result (conclude w result r).0) (wind_down w (conclude w result r).1)
  unfolding conclude
  conclude_lem (ok _) r h =
      wind_down_lem Completed (Ended r (ok tt) none) (finished r) (λ e _. played e)
        (λ x e _. lost x e) (not_completed (Ended r (ok tt) none))
        (record {
          status = MatchStatus.completed;
          error = none;
          shape = success;
          because = (refl, refl);
          logs = record {
            numbered = h.numbered;
            counted = h.counted;
            quiet = h.quiet;
            standing = refl;
            ended = h.ended;
          };
        })
  conclude_lem (err e) r h =
      let why = Ended r (err e) (some (classify_terminal_error w e r).0) in
      wind_down_lem why why (classify_terminal_error w e r).1 (λ _ d. absurd (never d))
        (λ x _ d. absurd (never d)) (λ st x d. d) (classify_lem e r h)
    where
      never : {run_err : Option (RunError E)} → ¬ Ended r (err e) run_err MatchStatus.completed none
      never d = elim d [ ]
