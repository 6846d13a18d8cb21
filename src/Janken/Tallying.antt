-- ===== src/Janken/Tallying.antt =====
-- What ApplyStep reads from the statuses of a round.
use ai_arena.Prelude.{
  ℕ, ◌+◌, String, true, false, ◌||◌, List, [], ◌∷◌, Option, none, some, ◌is◌, if◌then◌else◌, Dict,
  keys, lookup, lookup_or, insert, Distinct, contains, lookup-insert, lookup_or-insert,
  contains-keys-insert, Distinct-insert, ◌≡◌, refl, ◌∙◌, arith, eq_iff, map,
}
use ai_arena.Contract.{ActionStatus, FailureReason}
use ai_arena.Janken.Data.{Score, zero_score}
use ai_arena.Janken.Rules.{is_playable_action}
use ai_arena.Janken.Outcomes.{plays, AllPlayable}
use ai_arena.Janken.Master.{Tally, tally_status, tally_statuses, count_failure, played, playable}

-- The first status of a player.
abbrev pub find_status : String → List ActionStatus → Option ActionStatus
find_status id [] = none
find_status id (s ∷ ss) = if s.player_id is id then some s else find_status id ss

-- The valid moves of a round.
abbrev pub moves : List ActionStatus → Dict String
moves [] = []
moves (s ∷ ss) = elim (played s) [ none ↦ moves ss | some a ↦ (s.player_id, a) ∷ moves ss ]

-- The rounds that a score has counted.
abbrev pub total : Score → ℕ
total s = s.wins + s.losses + s.draws

abbrev pub status_ids : List ActionStatus → List String
status_ids = map λ s. s.player_id

total-count_failure : (r : FailureReason) (s : Score) → total (count_failure r s) ≡ total s
unfolding count_failure
total-count_failure FailureReason.timeout s = refl
total-count_failure FailureReason.illegal_action s = refl
total-count_failure _ s = refl

-- Reading the statuses counts no round.
pub total-tally_statuses :
    (id : String) (t : Tally) (ss : List ActionStatus)
    → total (lookup_or zero_score id (tally_statuses t ss).scores)
      ≡ total (lookup_or zero_score id t.scores)
unfolding tally_statuses
total-tally_statuses id t [] = refl
total-tally_statuses id t (s ∷ ss) = total-tally_statuses id (tally_status t s) ss ∙ one
  where
    one :
        total (lookup_or zero_score id (tally_status t s).scores)
        ≡ total (lookup_or zero_score id t.scores)
    one = ground (
      arith,
      lookup_or-insert zero_score s.player_id id
          (count_failure s.failure_reason (lookup_or zero_score s.player_id t.scores)) t.scores,
      total-count_failure s.failure_reason (lookup_or zero_score s.player_id t.scores),
      eq_iff s.player_id id,
    )

find_status_of_fresh :
    (id : String) (ss : List ActionStatus)
    → contains id (status_ids ss) ≡ false
    → find_status id ss ≡ none
unfolding contains
find_status_of_fresh id [] h = refl
find_status_of_fresh id (s ∷ ss) h =
    ground (arith, find_status_of_fresh id ss, eq_iff s.player_id id, eq_iff id s.player_id)

-- What a status shows as the action of the round.
abbrev pub shown : ActionStatus → String
shown s = elim (played s) [ none ↦ "no_action" | some a ↦ a ]

pub lookup-actions :
    (id : String) (t : Tally) (ss : List ActionStatus)
    → Distinct (status_ids ss)
    → lookup id (tally_statuses t ss).actions
      ≡ elim (find_status id ss) [ none ↦ lookup id t.actions | some s ↦ some (shown s) ]
unfolding tally_statuses
lookup-actions id t [] d = refl
lookup-actions id t (s ∷ ss) d = ground (
  arith,
  lookup-actions id (tally_status t s) ss d.1,
  lookup-insert s.player_id id (shown s) t.actions,
  find_status_of_fresh s.player_id ss d.0,
  eq_iff s.player_id id,
)

pub lookup-outcomes :
    (id : String) (t : Tally) (ss : List ActionStatus)
    → Distinct (status_ids ss)
    → lookup id (tally_statuses t ss).outcomes ≡ elim (find_status id ss) [
      | none ↦ lookup id t.outcomes
      | some s ↦ elim (played s) [ none ↦ some "loss" | some _ ↦ lookup id t.outcomes ]
    ]
unfolding tally_statuses
lookup-outcomes id t [] d = refl
lookup-outcomes id t (s ∷ ss) d = ground (
  arith,
  lookup-outcomes id (tally_status t s) ss d.1,
  lookup-insert s.player_id id "loss" t.outcomes,
  find_status_of_fresh s.player_id ss d.0,
  eq_iff s.player_id id,
)

pub lookup-valid :
    (id : String) (t : Tally) (ss : List ActionStatus)
    → Distinct (status_ids ss)
    → lookup id (tally_statuses t ss).valid ≡ elim (find_status id ss) [
      | none ↦ lookup id t.valid
      | some s ↦ elim (played s) [ none ↦ lookup id t.valid | some a ↦ some a ]
    ]
unfolding tally_statuses
lookup-valid id t [] d = refl
lookup-valid id t (s ∷ ss) d = ground (
  arith,
  lookup-valid id (tally_status t s) ss d.1,
  lookup-insert s.player_id id (shown s) t.valid,
  find_status_of_fresh s.player_id ss d.0,
  eq_iff s.player_id id,
)

pub Distinct-valid :
    (t : Tally) (ss : List ActionStatus)
    → Distinct (keys t.valid)
    → Distinct (keys (tally_statuses t ss).valid)
unfolding tally_statuses
Distinct-valid t [] d = d
Distinct-valid t (s ∷ ss) d = Distinct-valid (tally_status t s) ss (one (played s) refl)
  where
    one : (p : Option String) → played s ≡ p → Distinct (keys (tally_status t s).valid)
    one none e = rw (e, tally_status) d
    one (some a) e = rw (e, tally_status) (Distinct-insert s.player_id a t.valid d)

AllPlayable-insert :
    (k a : String) (m : Dict String)
    → is_playable_action a ≡ true
    → AllPlayable m
    → AllPlayable (insert k a m)
unfolding insert
AllPlayable-insert k a [] h p = (h, tt)
AllPlayable-insert k a ((j, b) ∷ m) h p = ground (arith, AllPlayable-insert k a m h p.1)

played-is_playable :
    (s : ActionStatus) (a : String) → played s ≡ some a → is_playable_action a ≡ true
unfolding played playable
played-is_playable s a h = ground arith

pub AllPlayable-valid :
    (t : Tally) (ss : List ActionStatus)
    → AllPlayable t.valid
    → AllPlayable (tally_statuses t ss).valid
unfolding tally_statuses
AllPlayable-valid t [] p = p
AllPlayable-valid t (s ∷ ss) p = AllPlayable-valid (tally_status t s) ss (one (played s) refl)
  where
    one : (o : Option String) → played s ≡ o → AllPlayable (tally_status t s).valid
    one none e = rw (e, tally_status) p
    one (some a) e =
        rw (e, tally_status) (AllPlayable-insert s.player_id a t.valid (played-is_playable s a e) p)

plays-insert :
    (x k a : String) (m : Dict String)
    → contains k (keys m) ≡ false
    → plays x (insert k a m) ≡ (plays x m || a is x)
unfolding insert contains
plays-insert x k a [] h = ground arith
plays-insert x k a ((j, b) ∷ m) h = ground (arith, plays-insert x k a m, eq_iff j k, eq_iff k j)

-- No key of the map is the id of a status to come.
abbrev Fresh : Dict String → List ActionStatus → Type 0
Fresh m [] = Unit {0}
Fresh m (s ∷ ss) = (contains s.player_id (keys m) ≡ false) × Fresh m ss

Fresh-insert :
    (k a : String) (m : Dict String) (ss : List ActionStatus)
    → contains k (status_ids ss) ≡ false
    → Fresh m ss
    → Fresh (insert k a m) ss
unfolding contains
Fresh-insert k a m [] h f = tt
Fresh-insert k a m (s ∷ ss) h f = ground (
  arith,
  Fresh-insert k a m ss,
  contains-keys-insert k s.player_id a m,
  eq_iff k s.player_id,
  eq_iff s.player_id k,
)

plays-valid_from :
    (x : String) (t : Tally) (ss : List ActionStatus)
    → Distinct (status_ids ss)
    → Fresh t.valid ss
    → plays x (tally_statuses t ss).valid ≡ (plays x t.valid || plays x (moves ss))
unfolding tally_statuses
plays-valid_from x t [] d f = ground arith
plays-valid_from x t (s ∷ ss) d f =
    go (played s) refl (plays-valid_from x (tally_status t s) ss d.1)
  where
    go :
        (p : Option String)
        → played s ≡ p
        → (Fresh (tally_status t s).valid ss
            → plays x (tally_statuses (tally_status t s) ss).valid
              ≡ (plays x (tally_status t s).valid || plays x (moves ss)))
        → plays x (tally_statuses (tally_status t s) ss).valid
          ≡ (plays x t.valid || plays x (moves (s ∷ ss)))
    go none e ih = ih (rw (e, tally_status) f.1) ∙ ground arith
    go (some a) e ih =
        ih (rw (e, tally_status) (Fresh-insert s.player_id a t.valid ss d.0 f.1))
        ∙ ground (arith, plays-insert x s.player_id a t.valid f.0)

Fresh-empty : (ss : List ActionStatus) → Fresh [] ss
unfolding contains
Fresh-empty [] = tt
Fresh-empty (s ∷ ss) = (refl, Fresh-empty ss)

-- From an empty map, the valid actions are the valid moves of the statuses.
pub plays-valid :
    (x : String) (t : Tally) (ss : List ActionStatus)
    → Distinct (status_ids ss)
    → t.valid ≡ []
    → plays x (tally_statuses t ss).valid ≡ plays x (moves ss)
plays-valid x t ss d e = plays-valid_from x t ss d (rw e (Fresh-empty ss)) ∙ rw e
