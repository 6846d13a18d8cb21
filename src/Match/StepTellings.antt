-- ===== src/Match/StepTellings.antt =====
-- internal/platform/match/match.go: what a decision step adds to the log of a runner, and what the
-- replay of internal/games/echo/echo.go makes of it.
use ai_arena.Prelude.{
  map, ℕ, zero, suc, sym, List, [], ◌∷◌, ◌++◌, Option, ◌≡◌, refl, ap, arith, ok, All, insert, subst,
  Result, err,
}
use ai_arena.Prelude.Int.{ℤ}
use mathlib.Core.List.{append_assoc, append-nil}
use ai_arena.Contract.{ActionStatus, DecisionRequest, DecisionMode}
use ai_arena.Session.{SessionResult}
use ai_arena.Match.World.{
  World, Runner, RunError, ◌>>=◌, ◌>>◌, done, raise, change, ask, attempt, context_result,
}
use ai_arena.Match.Turns.{
  TurnExecution, request_payload, prepare_turn, prepare_turns, execute_turn, settle_turn,
  settle_turns, executions_from, execution, run_simultaneous_step, run_sequential_step, run_step,
  turn_request,
}
use ai_arena.Match.Progress.{IfOk, IfOk-of, then-IfOk}
use ai_arena.Echo.Snapshots.{replay_events}
use ai_arena.Echo.History.{Told, IsKnown, replay_events-mark_all}
use ai_arena.Echo.Steps.{Marks, mark_all}
use ai_arena.Match.Tellings.{IsAnswer, Answers, answer, IsReplayed, append_other, record_turn-Told}

Answers-split :
    {req : DecisionRequest} {s : ActionStatus} {reqs : List DecisionRequest}
    {ss : List ActionStatus}
    → Answers (req ∷ reqs) (s ∷ ss)
    → IsAnswer req s × Answers reqs ss
Answers-split (answer a more) = (a, more)

map-executions_from :
    {S E : Type 0} (w : World S E) (results : ℕ → SessionResult × Option E) (i : ℕ)
    (reqs : List DecisionRequest)
    → map (λ x. x.request) (executions_from w results i reqs) ≡ reqs
unfolding executions_from execution
map-executions_from w results i [] = refl
map-executions_from w results i (req ∷ more) =
    ap (λ z. req ∷ z) (map-executions_from w results (suc i) more)

module _ {S E : Type 0} (w : World S E) (target turn : ℤ) where
  -- The log after a function of statuses that answer some requests: `H` is what is assumed before.
  abbrev TellsAll :
      Type 0 → List DecisionRequest → List ActionStatus → List ActionStatus → Runner S E → Type 0
  TellsAll H reqs ss statuses r = H → Answers reqs statuses → Told target r.events (ss ++ statuses)

  settle_turn-Told :
      {H : Type 0} (x : TurnExecution E) (ss : List ActionStatus) (r : Runner S E)
      → IsReplayed target turn
      → (H → Told target r.events ss)
      → IfOk
          (λ s r'. H → IsAnswer x.request s → Told target r'.events (ss ++ s ∷ []))
          (settle_turn w turn x r)
  unfolding settle_turn ◌>>=◌ ◌>>◌ attempt change done
  settle_turn-Told {H = H} x ss r c t =
      then-IfOk (λ _ r'. H → Told target r'.events ss)
        (λ s r'. H → IsAnswer x.request s → Told target r'.events (ss ++ s ∷ []))
        (context_result x.error, r) _
        (IfOk-of (λ r'. H → Told target r'.events ss) (context_result x.error, r) t)
        λ _ r1 t1.
          then-IfOk (λ _ r'. H → Told target r'.events ss)
            (λ s r'. H → IsAnswer x.request s → Told target r'.events (ss ++ s ∷ []))
            (attempt (w.normalize x.request x.action_status) r1) _
            (IfOk-of (λ r'. H → Told target r'.events ss)
              (attempt (w.normalize x.request x.action_status) r1) t1)
            λ s r2 t2 h a.
              record_turn-Told w target turn (record x { action_status = s }) ss r2 c a (t2 h)

  settle_turns-Told :
      (xs : List (TurnExecution E)) (H : Type 0) (ss : List ActionStatus) (r : Runner S E)
      → IsReplayed target turn
      → (H → Told target r.events ss)
      → IfOk (TellsAll H (map (λ x. x.request) xs) ss) (settle_turns w turn xs r)
  unfolding settle_turns ◌>>=◌ done
  settle_turns-Told [] H ss r c t = λ h a. subst (Told target r.events) (sym (append-nil ss)) (t h)
  settle_turns-Told (x ∷ xs) H ss r c t =
      then-IfOk (λ s r'. H → IsAnswer x.request s → Told target r'.events (ss ++ s ∷ []))
        (TellsAll H (x.request ∷ map (λ y. y.request) xs) ss) (settle_turn w turn x r) _
        (settle_turn-Told x ss r c t)
        λ s r1 t1.
          then-IfOk (TellsAll (H × IsAnswer x.request s) (map (λ y. y.request) xs) (ss ++ s ∷ []))
            (TellsAll H (x.request ∷ map (λ y. y.request) xs) ss) (settle_turns w turn xs r1) _
            (settle_turns-Told xs (H × IsAnswer x.request s) (ss ++ s ∷ []) r1 c λ k. t1 k.0 k.1)
            λ statuses r2 t2 h a.
              let (first, more) = Answers-split a in
              subst (Told target r2.events) (append_assoc ss (s ∷ []) statuses) (t2 (h, first) more)

  prepare_turn-Told :
      (req : DecisionRequest) (ss : List ActionStatus) (r : Runner S E)
      → Told target r.events ss
      → Told target (prepare_turn w turn req r).events ss
  unfolding prepare_turn
  prepare_turn-Told req ss r t =
      append_other w target turn "turn_requested" req.player_id (request_payload req) ss
        (record r { last_seen = insert req.player_id req.visible_state r.last_seen }) refl t

  prepare_turns-Told :
      (reqs : List DecisionRequest) (ss : List ActionStatus) (r : Runner S E)
      → Told target r.events ss
      → Told target (prepare_turns w turn reqs r).events ss
  unfolding prepare_turns
  prepare_turns-Told [] ss r t = t
  prepare_turns-Told (req ∷ more) ss r t =
      prepare_turns-Told more ss (prepare_turn w turn req r) (prepare_turn-Told req ss r t)

  simultaneous-Told :
      (mode : DecisionMode) (reqs : List DecisionRequest) (ss : List ActionStatus) (r : Runner S E)
      → IsReplayed target turn
      → Told target r.events ss
      → IfOk
          (TellsAll (Unit {0}) reqs ss)
          (run_simultaneous_step w (record { turn = turn; mode = mode; requests = reqs }) r)
  unfolding run_simultaneous_step ◌>>=◌ ◌>>◌ change ask
  simultaneous-Told mode reqs ss r c t =
      let prepared = prepare_turns w turn reqs r in
      let answered =
        w.turns (map (λ req. (req.player_id, turn_request turn req)) reqs) prepared.world in
      let xs = executions_from w answered.0 zero reqs in
      let after = record prepared { world = answered.1 } in
      subst (λ z. IfOk (TellsAll (Unit {0}) z ss) (settle_turns w turn xs after))
        (map-executions_from w answered.0 zero reqs)
        (settle_turns-Told xs Unit ss after c λ _. prepare_turns-Told reqs ss r t)

  sequential-Told :
      (mode : DecisionMode) (reqs : List DecisionRequest) (ss : List ActionStatus) (r : Runner S E)
      → IsReplayed target turn
      → Told target r.events ss
      → IfOk
          (TellsAll (Unit {0}) reqs ss)
          (run_sequential_step w (record { turn = turn; mode = mode; requests = reqs }) reqs r)
  unfolding run_sequential_step ◌>>=◌ ◌>>◌ change done raise execute_turn execution
  sequential-Told mode [] ss r c t = tt
  sequential-Told mode (req ∷ []) ss r c t =
      let prepared = prepare_turn w turn req r in
      let answered = w.turn req.player_id (turn_request turn req) prepared.world in
      let x = execution req answered.0 (w.context_error answered.1) in
      let after = record prepared { world = answered.1 } in
      then-IfOk (λ s r'. Unit {0} → IsAnswer req s → Told target r'.events (ss ++ s ∷ []))
        (TellsAll (Unit {0}) (req ∷ []) ss) (settle_turn w turn x after) _
        (settle_turn-Told x ss after c λ _. prepare_turn-Told req ss r t)
        λ s r' f h a. f h (Answers-split a).0
  sequential-Told mode (req ∷ also ∷ more) ss r c t = tt

  step-Told :
      (mode : DecisionMode) (reqs : List DecisionRequest) (ss : List ActionStatus) (r : Runner S E)
      → IsReplayed target turn
      → Told target r.events ss
      → IfOk
          (TellsAll (Unit {0}) reqs ss)
          (run_step w (record { turn = turn; mode = mode; requests = reqs }) r)
  unfolding run_step raise
  step-Told DecisionMode.simultaneous reqs ss r c t =
      simultaneous-Told DecisionMode.simultaneous reqs ss r c t
  step-Told DecisionMode.sequential reqs ss r c t =
      sequential-Told DecisionMode.sequential reqs ss r c t
  step-Told (DecisionMode.other_mode m) reqs ss r c t = tt

  ok-IfOk :
      {A : Type 0} (P : A → Runner S E → Type 0) (x : Result (RunError E) A × Runner S E) (a : A)
      → x.0 ≡ ok a
      → IfOk P x
      → P a x.1
  ok-IfOk P (ok b, r) a e h = subst (λ z. P z r) (ground (arith, e)) h
  ok-IfOk P (err b, r) a e h = absurd (ground (arith, e))

  -- A decision step of either mode that returns statuses: when the log before it tells some
  -- statuses, the log after it tells those and then the step's, in the order of its requests, to the
  -- replay up to a turn that counts the step's. Each status is of the player of its request, who has
  -- a name, and its JSON gives it back.
  pub run_step-Told :
      (mode : DecisionMode) (reqs : List DecisionRequest) (ss statuses : List ActionStatus)
      (r : Runner S E)
      → IsReplayed target turn
      → (run_step w (record { turn = turn; mode = mode; requests = reqs }) r).0 ≡ ok statuses
      → Answers reqs statuses
      → Told target r.events ss
      → Told target
          (run_step w (record { turn = turn; mode = mode; requests = reqs }) r).1.events
          (ss ++ statuses)
  run_step-Told mode reqs ss statuses r c e a t =
      ok-IfOk (TellsAll (Unit {0}) reqs ss)
        (run_step w (record { turn = turn; mode = mode; requests = reqs }) r) statuses e
        (step-Told mode reqs ss r c t) tt a

  -- After a decision step of either mode that returns statuses, each of the named player of its
  -- request and given back by its JSON, a replay of the log up to a turn that counts the step's
  -- returns no error, when the log before the step tells some statuses and all are of players that
  -- the replay knows: it gives the scores and the last actions that ApplyStep of the echo game makes
  -- of the earlier statuses and then of the step's.
  pub replay_events-run_step :
      (mode : DecisionMode) (reqs : List DecisionRequest) (ss statuses : List ActionStatus)
      (r : Runner S E) (b : Marks)
      → IsReplayed target turn
      → (run_step w (record { turn = turn; mode = mode; requests = reqs }) r).0 ≡ ok statuses
      → Answers reqs statuses
      → Told target r.events ss
      → All (IsKnown b.last_action) (ss ++ statuses)
      → replay_events target b
          (run_step w (record { turn = turn; mode = mode; requests = reqs }) r).1.events
        ≡ ok (mark_all b (ss ++ statuses))
  replay_events-run_step mode reqs ss statuses r b c e a t k =
      replay_events-mark_all target b
        (run_step w (record { turn = turn; mode = mode; requests = reqs }) r).1.events
        (ss ++ statuses) (run_step-Told mode reqs ss statuses r c e a t) k
