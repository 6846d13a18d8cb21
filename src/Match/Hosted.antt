-- ===== src/Match/Hosted.antt =====
-- internal/platform/gamemaster/gamemaster.go: a game in the process of the runner as its game master.
use ai_arena.Prelude.{
  String, List, [], ◌∷◌, Option, none, some, ◌is◌, if◌then◌else◌, Dict, lookup_or, insert, Result,
  ok, err, ◌≡◌, ap, ◌∙◌, subst, arith,
}
use ai_arena.Json.{RawMessage, no_bytes, is_no_bytes}
use ai_arena.Contract.{
  GameMetadata, DecisionRequest, DecisionStep, ActionStatus, Placement, Snapshot, PlayerSnapshot,
  ExportedSnapshot, ExportedPlayerSnapshot,
}
use ai_arena.Match.{Event}
use ai_arena.Match.Calm.{Calm}
use ai_arena.Match.World.{World, Observer}
use ai_arena.Match.Finishing.{zero_status}

-- game.Master; no game of the repository is a PublicReplayProvider.
pub record Game (M E : Type 0) : Type 0 where
  pub metadata : M → GameMetadata
  pub init : M → Dict RawMessage
  pub next_step : M → Option DecisionStep
  pub normalize_action : DecisionRequest → ActionStatus → ActionStatus
  pub apply_step : M → DecisionStep → List ActionStatus → Result E M
  pub snapshot : M → Snapshot
  pub visible_state : M → String → RawMessage
  pub exported_snapshot : M → ExportedSnapshot
  pub result : M → List Placement

abbrev pub zero_player : PlayerSnapshot
zero_player = record {
  visible_state = no_bytes;
  last_action_status = zero_status;
  stderr_bytes = 0;
}

-- A player of the snapshot, with what is missing in it.
unfoldable pub complete_player :
    (String → RawMessage) → ExportedPlayerSnapshot → PlayerSnapshot → PlayerSnapshot
complete_player visible player p = record {
  visible_state = if is_no_bytes p.visible_state then visible player.player_id else p.visible_state;
  last_action_status =
      if p.last_action_status.player_id is ""
      then player.last_action_status
      else p.last_action_status;
  stderr_bytes = p.stderr_bytes;
}

unfoldable pub complete_players :
    (String → RawMessage) → List ExportedPlayerSnapshot → Dict PlayerSnapshot → Dict PlayerSnapshot
unfolding complete_player
complete_players visible [] m = m
complete_players visible (p ∷ ps) m =
    complete_players visible ps
      (insert p.player_id (complete_player visible p (lookup_or zero_player p.player_id m)) m)

module _ {M E : Type 0} (game : Game M E) where
  unfoldable pub current_snapshot : M → Snapshot
  unfolding complete_players
  current_snapshot m =
      let s = game.snapshot m in
      record s {
        per_player =
            complete_players (game.visible_state m) (game.exported_snapshot m).players s.per_player;
      }

  abbrev pub after_apply : {X : Type 0} → M → X → Result E M → Result E (Unit {0}) × (M × X)
  after_apply m x (ok m') = (ok tt, (m', x))
  after_apply m x (err e) = (err e, (m, x))

  abbrev pub beside : {X A : Type 0} → M → A × X → A × (M × X)
  beside m (a, x) = (a, (m, x))

  abbrev pub watch : {X : Type 0} → Observer X → Observer (M × X)
  watch o = record {
    on_event = λ e s. (s.0, o.on_event e s.1);
    on_record_built = λ built s. (s.0, o.on_record_built built s.1);
    on_exported_snapshot = elim o.on_exported_snapshot [
      | none ↦ none
      | some publish ↦ some λ exported s. (s.0, publish exported s.1)
    ];
  }

  -- inProcessSession, with the sessions, the context and the observer of a world.
  unfoldable pub in_process : {X : Type 0} → E → World X E → World (M × X) E
  unfolding current_snapshot
  in_process unavailable w = record {
    context_error = λ s. w.context_error s.1;
    error_text = w.error_text;
    is_cancellation = w.is_cancellation;
    quoted = w.quoted;
    parse_duration = w.parse_duration;
    environment = w.environment;
    marshal_error = w.marshal_error;
    metadata = λ s. game.metadata s.0;
    initialize_match = λ s. (ok (game.init s.0), s);
    next_decision_step = λ s. (ok (game.next_step s.0), s);
    normalize = λ req status s. (ok (game.normalize_action req status), s);
    apply_decision_results =
        λ step statuses s. after_apply s.0 s.1 (game.apply_step s.0 step statuses);
    current_snapshot = λ s. (ok (current_snapshot s.0), s);
    current_exported_snapshot = λ s. (ok (game.exported_snapshot s.0), s);
    current_result = λ s. (ok (game.result s.0), s);
    current_public_replay = some λ s. (err unavailable, s);
    shutdown = λ s. (ok tt, s);
    init = λ player req s. beside s.0 (w.init player req s.1);
    turn = λ player req s. beside s.0 (w.turn player req s.1);
    game_over = λ player req s. beside s.0 (w.game_over player req s.1);
    close = λ player s. beside s.0 (w.close player s.1);
    stderr = λ player s. w.stderr player s.1;
    turns = λ reqs s. beside s.0 (w.turns reqs s.1);
    observer = elim w.observer [ none ↦ none | some o ↦ some (watch o) ];
  }

  module _ {X : Type 0} (unavailable : E) (w : World X E) (P : M → Type 0) where
    watched :
        (found : Option (Observer X)) (o : Observer (M × X)) (e : Event) (s : M × X)
        → elim found [ none ↦ none | some z ↦ some (watch z) ] ≡ some o
        → P s.0
        → P (o.on_event e s).0
    watched none o e s p h = ground (arith, p)
    watched (some z) o e s p h =
        let same : watch z ≡ o = ap (λ x. elim x [ none ↦ watch z | some y ↦ y ]) p in
        subst (λ y. P (y.on_event e s).0) same h

    published :
        (given : Option (ExportedSnapshot → X → X)) (f : ExportedSnapshot → M × X → M × X)
        (x : ExportedSnapshot) (s : M × X)
        → elim given [ none ↦ none | some publish ↦ some λ exported t. (t.0, publish exported t.1) ]
          ≡ some f
        → P s.0
        → P (f x s).0
    published none f x s p h = ground (arith, p)
    published (some g) f x s p h =
        let same : (λ exported t. (t.0, g exported t.1)) ≡ f =
          ap (λ y. elim y [ none ↦ λ exported t. (t.0, g exported t.1) | some y' ↦ y' ]) p in
        subst (λ y. P (y x s).0) same h

    watch_published :
        (found : Option (Observer X)) (o : Observer (M × X)) (f : ExportedSnapshot → M × X → M × X)
        (x : ExportedSnapshot) (s : M × X)
        → elim found [ none ↦ none | some z ↦ some (watch z) ] ≡ some o
        → o.on_exported_snapshot ≡ some f
        → P s.0
        → P (f x s).0
    watch_published none o f x s p q h = ground (arith, p)
    watch_published (some z) o f x s p q h =
        let same : watch z ≡ o = ap (λ y. elim y [ none ↦ watch z | some y' ↦ y' ]) p in
        published z.on_exported_snapshot f x s (ap (λ y. y.on_exported_snapshot) same ∙ q) h

    -- Only ApplyStep changes the state of the game.
    pub in_process-Calm : Calm (in_process unavailable w) λ s. P s.0
    unfolding in_process
    in_process-Calm = record {
      initialize = λ s h. h;
      next = λ s h. h;
      normalize = λ req status s h. h;
      exported = λ s h. h;
      init = λ player req s h. h;
      turn = λ player req s h. h;
      turns = λ reqs s h. h;
      event = λ o e s p h. watched w.observer o e s p h;
      publish = λ o f x s p q h. watch_published w.observer o f x s p q h;
    }
