-- ===== src/Janken/RoundResult.antt =====
-- The result that a round records for each player.
use ai_arena.Prelude.{
  String, true, false, List, [], ◌∷◌, ◌++◌, none, some, Dict, keys, lookup, lookup_or, insert,
  Distinct, contains, lookup-insert, lookup_or-lookup, Distinct-insert, contains-keys, Option-cases,
  inl, inr, ◌≡◌, refl, ◌∙◌, arith, eq_iff, ok,
}
use ai_arena.Contract.{ActionStatus, DecisionStep}
use ai_arena.Janken.Data.{Master, ids_of}
use ai_arena.Janken.Rules.{
  resolve_valid_outcomes, assign_each, collect_choices, winning_action_for_choices, win_or_loss,
}
use ai_arena.Janken.Outcomes.{verdict, plays, resolve_valid_outcomes_lem}
use ai_arena.Janken.Tallying.{
  find_status, status_ids, shown, moves, lookup-actions, lookup-outcomes, lookup-valid,
  Distinct-valid, AllPlayable-valid, plays-valid,
}
use ai_arena.Janken.Master.{
  Books, played, tally_statuses, tally_of, merge, outcomes_of, commit_round, apply_step,
}
use ai_arena.Janken.Rounds.{apply_step_commits, settle_history}

lookup_of_fresh : (p : String) (m : Dict String) → contains p (keys m) ≡ false → lookup p m ≡ none
lookup_of_fresh p m h = ground (arith, contains-keys p m)

lookup-merge :
    (q : String) (out m : Dict String)
    → Distinct (keys m)
    → lookup q (merge out m) ≡ elim (lookup q m) [ none ↦ lookup q out | some o ↦ some o ]
unfolding merge lookup
lookup-merge q out [] d = refl
lookup-merge q out ((p, o) ∷ m) d = ground (
  arith,
  lookup-merge q (insert p o out) m d.1,
  lookup-insert p q o out,
  lookup_of_fresh p m d.0,
  eq_iff p q,
)

Distinct-assign_each :
    (f : String → String) (out m : Dict String)
    → Distinct (keys out)
    → Distinct (keys (assign_each f out m))
unfolding assign_each
Distinct-assign_each f out [] d = d
Distinct-assign_each f out ((p, c) ∷ m) d =
    Distinct-assign_each f (insert p (f c) out) m (Distinct-insert p (f c) out d)

Distinct-resolve : (m : Dict String) → Distinct (keys (resolve_valid_outcomes m))
unfolding resolve_valid_outcomes
Distinct-resolve m =
    let winning = winning_action_for_choices (collect_choices [] m) in
    ground (
      arith,
      Distinct-assign_each (λ _. "draw") [] m tt,
      Distinct-assign_each (win_or_loss winning) [] m tt,
    )

-- The result of a status in a round: the verdict of the rules on what it plays, among the valid
-- moves of the round, and a loss if it plays nothing.
abbrev pub result_of : List ActionStatus → ActionStatus → String
result_of ss s = elim (played s) [ none ↦ "loss" | some a ↦ verdict a (moves ss) ]

module _ (m : Master) (ss : List ActionStatus) (d : Distinct (status_ids ss)) where
  plays-round : (x : String) → plays x (tally_of m ss).valid ≡ plays x (moves ss)
  unfolding tally_of tally_statuses
  plays-round x = plays-valid x (tally_of m []) ss d refl

  verdict-valid : (a : String) → verdict a (tally_of m ss).valid ≡ verdict a (moves ss)
  verdict-valid a = ground (arith, plays-round "rock", plays-round "paper", plays-round "scissors")

  round_valid :
      (id : String) (s : ActionStatus)
      → find_status id ss ≡ some s
      → lookup id (tally_of m ss).valid ≡ played s
  unfolding tally_of tally_statuses lookup
  round_valid id s f = lookup-valid id (tally_of m []) ss d ∙ ground arith

  round_loss :
      (id : String) (s : ActionStatus)
      → find_status id ss ≡ some s
      → played s ≡ none
      → lookup id (tally_of m ss).outcomes ≡ some "loss"
  unfolding tally_of tally_statuses lookup
  round_loss id s f e = lookup-outcomes id (tally_of m []) ss d ∙ ground arith

  round_rules :
      (id : String)
      → lookup id (resolve_valid_outcomes (tally_of m ss).valid)
        ≡ elim (lookup id (tally_of m ss).valid) [
          | none ↦ none
          | some c ↦ some (verdict c (tally_of m ss).valid)
        ]
  unfolding tally_of tally_statuses
  round_rules id =
      resolve_valid_outcomes_lem id (tally_of m ss).valid (AllPlayable-valid (tally_of m []) ss tt)
        (Distinct-valid (tally_of m []) ss tt)

  round_outcome :
      (id : String) (s : ActionStatus)
      → find_status id ss ≡ some s
      → lookup id (outcomes_of (tally_of m ss)) ≡ some (result_of ss s)
  unfolding outcomes_of
  round_outcome id s f =
      let t = tally_of m ss in
      let merged =
        lookup-merge id t.outcomes (resolve_valid_outcomes t.valid) (Distinct-resolve t.valid) in
      elim (Option-cases (played s)) [
        | inl e ↦ ground (arith, merged, round_rules id, round_valid id s f, round_loss id s f e, e)
        | inr (a, e) ↦
            ground (arith, merged, round_rules id, round_valid id s f, verdict-valid a, e)
      ]

  round_shown :
      (id : String) (s : ActionStatus)
      → find_status id ss ≡ some s
      → lookup id (tally_of m ss).actions ≡ some (shown s)
  unfolding tally_of tally_statuses
  round_shown id s f = lookup-actions id (tally_of m []) ss d ∙ ground arith

-- An applied step appends to the history of each player of the match, for the player's status of
-- the round, one entry with the turn, the action played, and the result that the rules of the game
-- give to that action among the valid moves of the round; without a valid action, a loss. The ids of
-- the players and those of the statuses are distinct.
pub apply_step_results :
    (m : Master) (step : DecisionStep) (ss : List ActionStatus) (m' : Master)
    → Distinct (ids_of m.players)
    → Distinct (status_ids ss)
    → apply_step m step ss ≡ ok m'
    → (id : String) (s : ActionStatus) → contains id (ids_of m.players) ≡ true
    → find_status id ss ≡ some s
    → lookup_or [] id m'.self_history
      ≡ lookup_or [] id m.self_history
        ++ record { round = step.turn; action = shown s; result = result_of ss s } ∷ []
unfolding commit_round
apply_step_results m step ss m' dp ds h id s c f =
    let t = tally_of m ss in
    let out = outcomes_of t in
    let books : Books = record { scores = t.scores; self_history = m.self_history } in
    ground (
      arith,
      (apply_step_commits m step ss m' h).0,
      settle_history step.turn t.actions out id books m.players dp,
      lookup_or-lookup "" id t.actions,
      lookup_or-lookup "" id out,
      round_shown m ss ds id s f,
      round_outcome m ss ds id s f,
    )
