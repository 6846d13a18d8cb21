-- ===== src/Match/Calm.antt =====
-- internal/platform/match/match.go: what the calls of a decision step leave as it is in the world.
use ai_arena.Prelude.{String, List, some, ◌≡◌, Result, Result-cases, Option-cases, inl, inr}
use ai_arena.Prelude.Int.{ℤ}
use ai_arena.Contract.{DecisionRequest, ActionStatus, ExportedSnapshot}
use ai_arena.Session.{Request}
use ai_arena.Match.{Event}
use ai_arena.Match.World.{
  World, Observer, Runner, RunError, Run, ◌>>=◌, ◌>>◌, done, raise, change, ask, attempt,
}
use ai_arena.Match.Events.{Payload, append_event, observe}

-- A predicate of the world that the calls of the runner keep, but for ApplyDecisionResults, the
-- calls of the shutdown, and the reading of the final state.
pub record Calm {S E : Type 0} (w : World S E) (P : S → Type 0) : Type 0 where
  pub initialize : (s : S) → P s → P (w.initialize_match s).1
  pub next : (s : S) → P s → P (w.next_decision_step s).1
  pub normalize :
      (req : DecisionRequest) (status : ActionStatus) (s : S) → P s → P (w.normalize req status s).1
  pub exported : (s : S) → P s → P (w.current_exported_snapshot s).1
  pub init : (player : String) (req : Request) (s : S) → P s → P (w.init player req s).1
  pub turn : (player : String) (req : Request) (s : S) → P s → P (w.turn player req s).1
  pub turns : (reqs : List (String × Request)) (s : S) → P s → P (w.turns reqs s).1
  pub event : (o : Observer S) (e : Event) (s : S) → w.observer ≡ some o → P s → P (o.on_event e s)
  pub publish :
      (o : Observer S) (f : ExportedSnapshot → S → S) (x : ExportedSnapshot) (s : S)
      → w.observer ≡ some o
      → o.on_exported_snapshot ≡ some f
      → P s
      → P (f x s)

module _ {S E : Type 0} (P : S → Type 0) where
  abbrev pub Leaves : (Runner S E → Runner S E) → Type 0
  Leaves f = (r : Runner S E) → P r.world → P (f r).world

  pub record LeavesIt {A : Type 0} (m : Run S E A) : Type 0 where
    pub leaves : Leaves λ r. (m r).1

  pub bind-LeavesIt :
      {A B : Type 0} {m : Run S E A} {k : A → Run S E B}
      → LeavesIt m
      → ((a : A) → LeavesIt (k a))
      → LeavesIt (m >>= k)
  unfolding ◌>>=◌
  bind-LeavesIt {m = m} f g = record {
    leaves = λ r h. elim (Result-cases (m r).0) [
      | inl (e, p) ↦ rw p (f.leaves r h)
      | inr (a, p) ↦ rw p ((g a).leaves (m r).1 (f.leaves r h))
    ];
  }

  pub then-LeavesIt :
      {B : Type 0} {m : Run S E (Unit {0})} {k : Run S E B}
      → LeavesIt m
      → LeavesIt k
      → LeavesIt (m >> k)
  unfolding ◌>>◌
  then-LeavesIt f g = bind-LeavesIt f λ _. g

  pub change-LeavesIt : (f : Runner S E → Runner S E) → Leaves f → LeavesIt (change f)
  unfolding change
  change-LeavesIt f k = record { leaves = k }

  pub done-LeavesIt : {A : Type 0} (a : A) → LeavesIt (done a)
  unfolding done
  done-LeavesIt a = record { leaves = λ r h. h }

  pub raise-LeavesIt : {A : Type 0} (e : RunError E) → LeavesIt {A = A} (raise e)
  unfolding raise
  raise-LeavesIt e = record { leaves = λ r h. h }

  pub ask-LeavesIt : {A : Type 0} (f : S → A × S) → ((s : S) → P s → P (f s).1) → LeavesIt (ask f)
  unfolding ask
  ask-LeavesIt f k = record { leaves = λ r h. k r.world h }

  pub attempt-LeavesIt :
      {A : Type 0} (f : S → Result E A × S) → ((s : S) → P s → P (f s).1) → LeavesIt (attempt f)
  unfolding attempt
  attempt-LeavesIt f k = record { leaves = λ r h. k r.world h }

module _ {S E : Type 0} (w : World S E) (P : S → Type 0) (calm : Calm w P) where
  pub append_event-Leaves :
      (kind : String) (turn : ℤ) (player_id : String) (payload : Payload)
      → Leaves P (append_event w kind turn player_id payload)
  unfolding append_event observe
  append_event-Leaves kind turn player_id payload r h = elim (Option-cases w.observer) [
    | inl p ↦ rw p h
    | inr (o, p) ↦ rw p (calm.event o _ r.world p h)
  ]
