-- ===== src/Match/JankenRuns.antt =====
-- internal/platform/match/match.go over internal/games/janken/janken.go: a run of a janken match.
use ai_arena.Prelude.{
  ◌-◌, ◌≤◌, ℕ, suc, List, Option, none, some, ◌≡◌, arith, Result, ok, err, ap, sym, subst, inl, inr,
  Result-cases, ◌+◌, Bool-cases, leb, ◌∙◌,
}
use ai_arena.Contract.{DecisionStep, ActionStatus}
use ai_arena.Janken.Data.{Master, JankenError}
use ai_arena.Janken.Views.{init, snapshot, visible_state, exported_snapshot}
use ai_arena.Janken.Master.{next_step, normalize_action, apply_step, commit_round}
use ai_arena.Janken.Rounds.{apply_step_commits}
use ai_arena.Janken.Matches.{next_step-none}
use ai_arena.Janken.Placing.{result}
use ai_arena.Match.World.{World, Runner}
use ai_arena.Match.Hosted.{Game, in_process, after_apply, in_process-Calm}
use ai_arena.Match.Progress.{Finite, run_returns}
use ai_arena.Match.Runs.{Outcome, run}

module _ {E X : Type 0} (as_error : JankenError → E) (unavailable : E) (w : World X E) where
  abbrev janken_result : Result JankenError Master → Result E Master
  janken_result (ok m) = ok m
  janken_result (err e) = err (as_error e)

  abbrev pub janken_game : Game Master E
  janken_game = record {
    metadata = λ m. m.meta;
    init = init;
    next_step = next_step;
    normalize_action = normalize_action;
    apply_step = λ m step statuses. janken_result (apply_step m step statuses);
    snapshot = snapshot;
    visible_state = visible_state;
    exported_snapshot = exported_snapshot;
    result = result;
  }

  abbrev pub janken_world : World (Master × X) E
  janken_world = in_process janken_game unavailable w

  -- The rounds that are left.
  abbrev pub left : Master × X → ℕ
  left s = s.0.rounds - s.0.resolved

  janken_advance :
      (step : DecisionStep) (statuses : List ActionStatus) (m : Master) (x : X)
      → (after_apply janken_game m x (janken_result (apply_step m step statuses))).0 ≡ ok tt
      → left (after_apply janken_game m x (janken_result (apply_step m step statuses))).1
        ≡ left (m, x) - 1
  unfolding commit_round
  janken_advance step statuses m x e = elim (Result-cases (apply_step m step statuses)) [
    | inl (f, p) ↦
        let wrong : err (as_error f) ≡ ok tt =
          subst (λ z. (after_apply janken_game m x (janken_result z)).0 ≡ ok tt) p e in
        absurd (ground (arith, wrong))
    | inr (m', p) ↦
        let same = (apply_step_commits m step statuses m' p).0 in
        let resolved : m'.resolved ≡ m.resolved + 1 = ap (λ z. z.resolved) same in
        let rounds : m'.rounds ≡ m.rounds = ap (λ z. z.rounds) same in
        rw p (omega (arith, resolved, rounds))
  ]

  janken_asks :
      (m : Master) (step : DecisionStep) → next_step m ≡ some step → 1 ≤ m.rounds - m.resolved
  unfolding next_step
  janken_asks m step e = elim (Bool-cases (leb m.rounds m.resolved)) [
    | inl full ↦
        let wrong : none ≡ some step = sym (next_step-none m (ground (arith, full))) ∙ e in
        absurd (ground (arith, wrong))
    | inr more ↦ ground (arith, more)
  ]

  asked_of : Result E (Option DecisionStep) → Option DecisionStep
  asked_of (ok asked) = asked
  asked_of (err e) = none

  pub janken-Finite : Finite janken_world left
  unfolding in_process asked_of
  janken-Finite = record {
    calm = λ n. in_process-Calm janken_game unavailable w λ m. m.rounds - m.resolved ≡ n;
    asks = λ s step e. janken_asks s.0 step (ap asked_of e);
    advance = λ step statuses s e. janken_advance step statuses s.0 s.1 e;
  }

  -- A run of a janken match returns, whatever the players, the context and the observer do and
  -- whenever the match was begun, with fuel for one step more than it has rounds left.
  pub janken_run_returns :
      (r : Runner (Master × X) E)
      → (o : Outcome (Master × X) E) × (run janken_world
            (suc (r.world.0.rounds - r.world.0.resolved))
            r
          ≡ some o)
  janken_run_returns r =
      run_returns janken_world left janken-Finite (suc (left r.world)) r (omega arith)
