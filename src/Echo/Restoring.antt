-- ===== src/Echo/Restoring.antt =====
-- internal/games/echo/echo.go: a snapshot from the history of a match is of its state.
use ai_arena.Prelude.{
  leb, Bool-cases, none, some, if◌then◌else◌, lookup, lookup_or, lookup-insert, contains, eq_iff, ℕ,
  ◌+◌, ◌≤◌, String, Bool, false, ◌&&◌, List, [], ◌∷◌, ◌++◌, map, ◌is◌, ◌≡◌, refl, ap, ◌∙◌, sym,
  arith, length, ltb, ok, Result-cases, inl, inr, All, subst,
}
use ai_arena.Prelude.Int.{pos}
use ai_arena.Json.{
  Json, Fields, value, number, text, object, array, end, field, map_fields, list_items,
}
use ai_arena.Protocol.Wire.{omit_text}
use ai_arena.Match.Payloads.{mode_text}
use ai_arena.Contract.{
  ActionStatus, DecisionStep, DecisionMode, MatchStatus, Snapshot, PlayerSnapshot,
}
use ai_arena.Match.{Event}
use ai_arena.Echo.Data.{
  Config, Master, Selection, selection_for, expected_order, assign_players, new, no_action_of,
}
use ai_arena.Echo.Steps.{
  Marks, mark, mark_all, marks_of, with_marks, advance, apply_step, expected_now, visible_raw,
}
use ai_arena.Echo.Snapshots.{ids_of, replay_events}
use ai_arena.Echo.Replays.{
  no_marks, replayed_snapshot, replayed_state, replayed_players, snapshot_from_history,
}
use ai_arena.Echo.History.{Told, IsKnown, replay_events-mark_all}

-- The match that a selection makes of a configuration.
abbrev pub made : (String → ℕ → ℕ → Bool) → Config → Selection → Master
made ranks cfg selected = record {
  meta = selected.meta;
  players = cfg.players;
  player_ids = map (λ p. p.player_id) cfg.players;
  mode = selected.mode;
  turns = selected.turns;
  deadline = selected.deadline;
  rng_seed = cfg.rng_seed;
  seed_aware = selected.seed_aware;
  order = expected_order ranks selected.turns cfg.rng_seed selected.seed_aware;
  resolved = 0;
  next_player = 0;
  score = assign_players (λ _. pos 0) [] (map (λ p. p.player_id) cfg.players);
  last_action = assign_players no_action_of [] (map (λ p. p.player_id) cfg.players);
}

pub new-made :
    (ranks : String → ℕ → ℕ → Bool) (cfg : Config) (m : Master)
    → new ranks cfg ≡ ok m
    → (selected : Selection) × (selection_for cfg.game_id cfg.game_version cfg.ruleset_name
        ≡ ok selected)
      × ((selected.seed_aware && cfg.rng_seed is "") ≡ false)
      × (m ≡ made ranks cfg selected)
unfolding new
new-made ranks cfg m e =
    elim (Result-cases (selection_for cfg.game_id cfg.game_version cfg.ruleset_name)) [
      | inl (x, p) ↦ absurd (ground (arith, e, p))
      | inr (selected, p) ↦ (selected, p, ground (arith, e, p), ground (arith, e, p))
    ]

-- The steps of a match, each with the statuses that are applied.
unfoldable pub play : Master → List (DecisionStep × List ActionStatus) → Master
unfolding apply_step
play m [] = m
play m ((step, ss) ∷ rest) = play (apply_step m step ss).1 rest

abbrev pub concat : List (DecisionStep × List ActionStatus) → List ActionStatus
concat [] = []
concat ((step, ss) ∷ rest) = ss ++ concat rest

mark_all-append :
    (b : Marks) (ss ts : List ActionStatus) → mark_all b (ss ++ ts) ≡ mark_all (mark_all b ss) ts
unfolding mark_all
mark_all-append b [] ts = refl
mark_all-append b (s ∷ ss) ts = mark_all-append (mark b s) ss ts

-- What a step does not change.
abbrev frame : Master → Master
frame m = record m { resolved = 0; next_player = 0; score = []; last_action = [] }

frame-advance :
    (mode : DecisionMode) (m : Master)
    → (frame (advance mode m).1 ≡ frame m) × (marks_of (advance mode m).1 ≡ marks_of m)
unfolding advance
frame-advance DecisionMode.simultaneous m = (refl, refl)
frame-advance DecisionMode.sequential m =
    elim (Bool-cases (leb (length m.players) (m.next_player + 1))) [
      | inl e ↦ (rw e refl, rw e refl)
      | inr e ↦ (rw e refl, rw e refl)
    ]
frame-advance (DecisionMode.other_mode t) m = (refl, refl)

play_lem :
    (m : Master) (rs : List (DecisionStep × List ActionStatus))
    → (marks_of (play m rs) ≡ mark_all (marks_of m) (concat rs)) × (frame (play m rs) ≡ frame m)
unfolding play apply_step mark_all
play_lem m [] = (refl, refl)
play_lem m ((step, ss) ∷ rest) =
    let before = with_marks m (mark_all (marks_of m) ss) in
    let (marks, same) = play_lem (advance step.mode before).1 rest in
    let (framed, marked) = frame-advance step.mode before in
    (
      marks
          ∙ ap (λ b. mark_all b (concat rest)) marked
          ∙ sym (mark_all-append (marks_of m) ss (concat rest)),
      same ∙ framed,
    )

history_of_made :
    (ranks : String → ℕ → ℕ → Bool) (cfg : Config) (selected : Selection) (n : ℕ) (es : List Event)
    (b : Marks)
    → selection_for cfg.game_id cfg.game_version cfg.ruleset_name ≡ ok selected
    → (selected.seed_aware && cfg.rng_seed is "") ≡ false
    → n ≤ selected.turns
    → replay_events (pos n) (no_marks (ids_of cfg.players)) es ≡ ok b
    → snapshot_from_history ranks cfg es (pos n)
      ≡ ok (
          replayed_snapshot selected cfg.players
            (pos n)
            cfg.rng_seed
            (expected_order ranks selected.turns cfg.rng_seed selected.seed_aware)
            b)
unfolding snapshot_from_history
history_of_made ranks cfg selected n es b p q l e =
    let inside : ltb selected.turns n ≡ false = ground (arith, l) in rw (p, q, inside, e) refl

-- The seed and the order of a match of the shuffled ruleset.
abbrev pub shuffle_of : Master → Fields
shuffle_of m =
    if m.seed_aware
    then field "rng_seed" (text m.rng_seed)
        (field "expected_order" (array (list_items (λ n. number (pos n)) m.order)) end)
    else end

-- The state of a match as a struct.
abbrev pub state_of : Master → Json
state_of m = object (
    field "mode" (text (mode_text m.mode)) (
      field "turn" (number (pos m.resolved)) (
        field "expected" (number (pos (expected_now m)))
          (field "score" (object (map_fields number m.score)) (shuffle_of m)))))

-- The part of a player in a snapshot that is rebuilt: the last action of the match, and a visible
-- state whose turn is the expected number.
abbrev pub player_of : Master → String → PlayerSnapshot
player_of m id = record {
  visible_state = value (
      object (
        field "turn" (number (pos (expected_now m))) (
          field "expected" (number (pos (expected_now m)))
            (field "score" (object (map_fields number m.score)) end))));
  last_action_status = lookup_or (no_action_of id) id m.last_action;
  stderr_bytes = 0;
}

-- A snapshot of a match: its game, turn, state and players.
pub record IsOf (m : Master) (s : Snapshot) : Type 0 where
  pub game :
      record {
        game_id = s.game_id;
        game_version = s.game_version;
        ruleset_version = s.ruleset_version;
      }
      ≡ m.meta
  pub turn : s.turn ≡ pos m.resolved
  pub status : s.status ≡ MatchStatus.running
  pub state : s.game_state ≡ value (state_of m)
  pub players :
      (id : String)
      → lookup id s.per_player
        ≡ (if contains id (ids_of m.players) then some (player_of m id) else none)

lookup-replayed_players :
    (m : Master) (ids : List String) (id : String)
    → lookup id (replayed_players (expected_now m) (marks_of m) ids)
      ≡ (if contains id ids then some (player_of m id) else none)
unfolding replayed_players visible_raw contains lookup
lookup-replayed_players m [] id = refl
lookup-replayed_players m (j ∷ ids) id = ground (
  arith,
  lookup-insert j id (player_of m j) (replayed_players (expected_now m) (marks_of m) ids),
  lookup-replayed_players m ids id,
  eq_iff j id,
  eq_iff id j,
)

shuffled_fields :
    (m : Master)
    → (m.seed_aware && m.rng_seed is "") ≡ false
    → (if m.seed_aware
        then omit_text "rng_seed" m.rng_seed
            (field "expected_order" (array (list_items (λ n. number (pos n)) m.order)) end)
        else end)
      ≡ shuffle_of m
unfolding omit_text
shuffled_fields m q = ground (arith, q)

-- The snapshot that is rebuilt from the state of a match.
abbrev rebuilt : Master → Selection → Snapshot
rebuilt m selected =
    replayed_snapshot selected m.players (pos m.resolved) m.rng_seed m.order (marks_of m)

rebuilt-IsOf :
    (m : Master) (selected : Selection)
    → selected.meta ≡ m.meta
    → selected.mode ≡ m.mode
    → selected.seed_aware ≡ m.seed_aware
    → (m.seed_aware && m.rng_seed is "") ≡ false
    → IsOf m (rebuilt m selected)
unfolding replayed_snapshot replayed_state expected_now
rebuilt-IsOf m selected meta mode aware q = record {
  game = meta;
  turn = refl;
  status = refl;
  state = rw (mode, aware, shuffled_fields m q);
  players = lookup-replayed_players m (ids_of m.players);
}

-- A match that was begun from a configuration and has applied some steps, simultaneous or
-- sequential, each with statuses, and has resolved no more than its turns: from any log that tells
-- those statuses in their order up to the turn that the match has reached, of players of the match,
-- a snapshot is rebuilt for that turn without an error. It has the game, the turn, the mode, the
-- scores and the expected number of the match, the seed and the order of one of the shuffled
-- ruleset, and for each player of the match, and nobody else, the last action.
pub snapshot_from_history-play :
    (ranks : String → ℕ → ℕ → Bool) (cfg : Config) (m : Master)
    (rs : List (DecisionStep × List ActionStatus)) (es : List Event)
    → new ranks cfg ≡ ok m
    → (play m rs).resolved ≤ m.turns
    → Told (pos (play m rs).resolved) es (concat rs)
    → All (IsKnown m.last_action) (concat rs)
    → (s : Snapshot) × (snapshot_from_history ranks cfg es (pos (play m rs).resolved) ≡ ok s)
      × IsOf (play m rs) s
unfolding no_marks
snapshot_from_history-play ranks cfg m rs es e l t k =
    let (selected, p, q, same) = new-made ranks cfg m e in
    let (marks, framed) = play_lem m rs in
    let played = play m rs in
    let n = played.resolved in
    let start : marks_of m ≡ no_marks (ids_of cfg.players) = ap marks_of same in
    let turns : m.turns ≡ selected.turns = ap (λ z. z.turns) same in
    let whole : frame played ≡ frame (made ranks cfg selected) = framed ∙ ap frame same in
    let replayed : replay_events (pos n) (no_marks (ids_of cfg.players)) es ≡ ok (marks_of played) =
      subst (λ b. replay_events (pos n) b es ≡ ok (marks_of played)) start
        (replay_events-mark_all (pos n) (marks_of m) es (concat rs) t k ∙ ap ok (sym marks)) in
    let seed : played.rng_seed ≡ cfg.rng_seed = ap (λ z. z.rng_seed) whole in
    let order : played.order
        ≡ expected_order ranks selected.turns cfg.rng_seed selected.seed_aware =
      ap (λ z. z.order) whole in
    let players : played.players ≡ cfg.players = ap (λ z. z.players) whole in
    let aware : played.seed_aware ≡ selected.seed_aware = ap (λ z. z.seed_aware) whole in
    (
      rebuilt played selected,
      history_of_made ranks cfg selected n es (marks_of played) p q (omega (arith, l, turns))
            replayed
          ∙ ap ok (sym (rw (seed, order, players))),
      rebuilt-IsOf played selected (sym (ap (λ z. z.meta) whole)) (sym (ap (λ z. z.mode) whole))
          (sym aware) (rw (aware, seed, q)),
    )
