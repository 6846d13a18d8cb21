-- ===== src/Match/Progress.antt =====
-- internal/platform/match/match.go: that a run ends, with fuel for the steps that the game master has
-- left.
use ai_arena.Prelude.{
  ℕ, zero, suc, ◌≤◌, ◌-◌, Bool, true, false, List, Option, none, some, ◌≡◌, refl, arith, Result, ok,
  err, ap,
}
use ai_arena.Prelude.Int.{pos}
use ai_arena.Contract.{DecisionStep, ActionStatus, MatchStatus}
use ai_arena.Match.World.{
  World, Runner, RunError, Run, then_run, ◌>>=◌, ◌>>◌, done, change, attempt, check_context,
  external_result,
}
use ai_arena.Match.Events.{publish_exported_snapshot}
use ai_arena.Match.Turns.{run_step, take_step}
use ai_arena.Match.Running.{
  take_asked, decision_round, decision_rounds, initialize_sessions, run_decision_loop,
}
use ai_arena.Match.Runs.{Outcome, run, run_loop, start_run, conclude, deferred, started_payload}
use ai_arena.Match.Calm.{Calm, append_event-Leaves}
use ai_arena.Match.CalmSteps.{
  run_mode-LeavesIt, publish_exported_snapshot-Leaves, initialize_sessions-LeavesIt,
}

-- The steps that the game master has left: it asks for one only when some are left, and one that it
-- applies is one less. No other call before the shutdown changes them.
pub record Finite {S E : Type 0} (w : World S E) (left : S → ℕ) : Type 0 where
  pub calm : (n : ℕ) → Calm w (λ s. left s ≡ n)
  pub asks :
      (s : S) (step : DecisionStep) → (w.next_decision_step s).0 ≡ ok (some step) → 1 ≤ left s
  pub advance :
      (step : DecisionStep) (statuses : List ActionStatus) (s : S)
      → (w.apply_decision_results step statuses s).0 ≡ ok tt
      → left (w.apply_decision_results step statuses s).1 ≡ left s - 1

module _ {S E : Type 0} where
  -- Of the value and the runner after a function that returns no error.
  abbrev pub IfOk :
      {A : Type 0} → (A → Runner S E → Type 0) → Result (RunError E) A × Runner S E → Type 0
  IfOk P (ok a, r) = P a r
  IfOk P (err e, r) = Unit {0}

  pub then-IfOk :
      {A B : Type 0} (Q : A → Runner S E → Type 0) (P : B → Runner S E → Type 0)
      (x : Result (RunError E) A × Runner S E) (k : A → Run S E B)
      → IfOk Q x
      → ((a : A) (r : Runner S E) → Q a r → IfOk P (k a r))
      → IfOk P (then_run x.0 x.1 k)
  then-IfOk Q P (ok a, r) k q f = f a r q
  then-IfOk Q P (err e, r) k q f = tt

  pub IfOk-of :
      {A : Type 0} (P : Runner S E → Type 0) (x : Result (RunError E) A × Runner S E)
      → P x.1
      → IfOk (λ _ r. P r) x
  IfOk-of P (ok a, r) h = h
  IfOk-of P (err e, r) h = tt

module _ {S E : Type 0} (w : World S E) (left : S → ℕ) (finite : Finite w left) where
  applied_less :
      (n : ℕ) (r : Runner S E) (x : Result E (Unit {0}) × S)
      → (x.0 ≡ ok tt → suc (left x.1) ≡ n)
      → IfOk (λ _ r'. suc (left r'.world) ≡ n) (external_result x.0, record r { world = x.1 })
  applied_less n r (ok _, s) h = h refl
  applied_less n r (err e, s) h = tt

  apply_less :
      (n : ℕ) (step : DecisionStep) (statuses : List ActionStatus) (r : Runner S E)
      → 1 ≤ n
      → left r.world ≡ n
      → IfOk
          (λ _ r'. suc (left r'.world) ≡ n)
          ((attempt (w.apply_decision_results step statuses)
              >> change (publish_exported_snapshot w))
            r)
  unfolding ◌>>◌ ◌>>=◌ attempt change
  apply_less n step statuses r m h =
      let answer = w.apply_decision_results step statuses r.world in
      then-IfOk (λ _ r'. suc (left r'.world) ≡ n) (λ _ r'. suc (left r'.world) ≡ n)
        (external_result answer.0, record r { world = answer.1 }) _
        (applied_less n r answer λ e. omega (arith, m, h, finite.advance step statuses r.world e))
        λ _ r' q.
          omega
            (arith, q, publish_exported_snapshot-Leaves w _ (finite.calm (left r'.world)) r' refl)

  take_step_less :
      (n : ℕ) (step : DecisionStep) (r : Runner S E)
      → 1 ≤ n
      → left r.world ≡ n
      → IfOk (λ _ r'. suc (left r'.world) ≡ n) (take_step w step r)
  unfolding take_step ◌>>=◌
  take_step_less n step r m h =
      then-IfOk (λ _ r'. left r'.world ≡ n) (λ _ r'. suc (left r'.world) ≡ n) (run_step w step r) _
        (IfOk-of (λ r'. left r'.world ≡ n) (run_step w step r)
          ((run_mode-LeavesIt w _ (finite.calm n) step.turn step.mode step.requests).leaves r h))
        λ statuses r' q. apply_less n step statuses r' m q

  -- After a round that goes on, one less is left.
  abbrev Fewer : ℕ → Bool → Runner S E → Type 0
  Fewer n false r = Unit {0}
  Fewer n true r = suc (left r.world) ≡ n

  asked_less :
      (n : ℕ) (asked : Option DecisionStep) (r : Runner S E)
      → ((step : DecisionStep) → asked ≡ some step → 1 ≤ n)
      → left r.world ≡ n
      → IfOk (Fewer n) (take_asked w asked r)
  unfolding take_asked ◌>>◌ ◌>>=◌ done
  asked_less n none r f h = tt
  asked_less n (some step) r f h =
      then-IfOk (λ _ r'. suc (left r'.world) ≡ n) (Fewer n) (take_step w step r) (λ _. done true)
        (take_step_less n step r (f step refl) h) λ _ r' q. q

  -- What a step that was asked for tells of the steps left.
  asked-some :
      (n : ℕ) (r : Runner S E) (x : Result E (Option DecisionStep) × S)
      → ((step : DecisionStep) → x.0 ≡ ok (some step) → 1 ≤ n)
      → left x.1 ≡ n
      → IfOk
          (λ asked r'. ((step : DecisionStep) → asked ≡ some step → 1 ≤ n) × (left r'.world ≡ n))
          (external_result x.0, record r { world = x.1 })
  asked-some n r (ok asked, s) f h = (λ step e. f step (ap ok e), h)
  asked-some n r (err e, s) f h = tt

  round_less : (n : ℕ) (r : Runner S E) → left r.world ≡ n → IfOk (Fewer n) (decision_round w r)
  unfolding decision_round ◌>>◌ ◌>>=◌ attempt
  round_less n r h =
      then-IfOk (λ _ r'. left r'.world ≡ n) (Fewer n) (check_context w r) _
        (IfOk-of (λ r'. left r'.world ≡ n) (check_context w r) h)
        λ _ r' q.
          then-IfOk
            (λ asked x. ((step : DecisionStep) → asked ≡ some step → 1 ≤ n) × (left x.world ≡ n))
            (Fewer n) (attempt w.next_decision_step r') _
            (asked-some n r' (w.next_decision_step r'.world)
              (λ step e. omega (arith, q, finite.asks r'.world step e))
              ((finite.calm n).next r'.world q))
            λ asked x p. asked_less n asked x p.0 p.1

  abbrev Rounds : Type 0
  Rounds = Result (RunError E) (Unit {0}) × Runner S E

  after_round_some :
      (fuel n : ℕ) (x : Result (RunError E) Bool × Runner S E)
      → IfOk (Fewer n) x
      → n ≤ fuel
      → ((r : Runner S E)
          → suc (left r.world) ≤ fuel
          → (y : Rounds) × (decision_rounds w fuel r ≡ some y))
      → (y : Rounds) × (elim x.0 [
        | err e ↦ some (err e, x.1)
        | ok more ↦ elim more [ false ↦ some (ok tt, x.1) | true ↦ decision_rounds w fuel x.1 ]
      ]
          ≡ some y)
  after_round_some fuel n (err e, r) h m f = ((err e, r), refl)
  after_round_some fuel n (ok false, r) h m f = ((ok tt, r), refl)
  after_round_some fuel n (ok true, r) h m f = f r (omega (arith, h, m))

  decision_rounds-some :
      (fuel : ℕ) (r : Runner S E)
      → suc (left r.world) ≤ fuel
      → (y : Rounds) × (decision_rounds w fuel r ≡ some y)
  unfolding decision_rounds
  decision_rounds-some zero r h = absurd (omega (arith, h))
  decision_rounds-some (suc fuel) r h =
      after_round_some fuel (left r.world) (decision_round w r) (round_less (left r.world) r refl)
        (omega (arith, h)) (decision_rounds-some fuel)

  run_loop-some :
      (fuel : ℕ) (x : Rounds)
      → suc (left x.1.world) ≤ fuel
      → (c : Option (RunError E) × Runner S E) × (run_loop w fuel x ≡ some c)
  unfolding run_loop run_decision_loop
  run_loop-some fuel (err e, r) h = (conclude w (err e) r, refl)
  run_loop-some fuel (ok _, r) h =
      let ((result, after), e) =
        decision_rounds-some fuel (record r { phase = MatchStatus.running }) h in
      (
        conclude w result after,
        ap (λ found. elim found [ none ↦ none | some (z, last) ↦ some (conclude w z last) ]) e,
      )

  -- A run returns, with fuel for one step more than the game master has left when it starts: when
  -- the game master asks for a step only while some are left, a step that it applies is one less, and
  -- nothing else that the runner calls before the shutdown changes what is left.
  pub run_returns :
      (fuel : ℕ) (r : Runner S E)
      → suc (left r.world) ≤ fuel
      → (o : Outcome S E) × (run w fuel r ≡ some o)
  unfolding run start_run
  run_returns fuel r h =
      let n = left r.world in
      let meta = w.metadata r.world in
      let started = start_run w meta r in
      let begun = initialize_sessions w meta started in
      let start : left started.world ≡ n =
        append_event-Leaves w (λ s. left s ≡ n) (finite.calm n) "match_started" (pos 0) ""
          (started_payload meta r.match_id r.players) r refl in
      let less : left begun.1.world ≡ n =
        (initialize_sessions-LeavesIt w (λ s. left s ≡ n) (finite.calm n) meta).leaves started
          start in
      let (c, e) = run_loop-some fuel begun (omega (arith, h, less)) in
      (
        deferred w meta c,
        ap (λ found. elim found [ none ↦ none | some z ↦ some (deferred w meta z) ]) e,
      )
