-- ===== src/Janken/Rounds.antt =====
-- What a round of the match does to the books.
use ai_arena.Prelude.{
  ℕ, ◌+◌, String, Bool, true, false, List, [], ◌∷◌, ◌++◌, if◌then◌else◌, Dict, lookup_or, insert,
  Distinct, contains, lookup_or-insert, length, length-append, ◌≡◌, refl, arith, eq_iff, sym, subst,
  ok,
}
use ai_arena.Prelude.Int.{ℤ}
use ai_arena.Contract.{Player, ActionStatus, DecisionStep}
use ai_arena.Janken.Data.{
  Score, zero_score, SelfRound, Master, ids_of, Config, new, give_each, metadata_for_selection,
}
use ai_arena.Janken.Tallying.{total, total-tally_statuses}
use ai_arena.Janken.Master.{
  Books, settle, settle_player, count_outcome, tally_statuses, tally_of, outcomes_of, commit_round,
  apply_step,
}

total-count_outcome : (o : String) (s : Score) → total (count_outcome o s) ≡ total s + 1
unfolding count_outcome
total-count_outcome o s = ground arith

abbrev one_if : Bool → ℕ
one_if true = 1
one_if false = 0

module _ (turn : ℤ) (actions outcomes : Dict String) where
  total-settle :
      (id : String) (b : Books) (ps : List Player)
      → Distinct (ids_of ps)
      → total (lookup_or zero_score id (settle turn actions outcomes b ps).scores)
        ≡ total (lookup_or zero_score id b.scores) + one_if (contains id (ids_of ps))
  unfolding settle contains settle_player
  total-settle id b [] d = omega arith
  total-settle id b (p ∷ ps) d =
      let score = lookup_or zero_score p.player_id b.scores in
      let after = count_outcome (lookup_or "" p.player_id outcomes) score in
      ground (
        arith,
        total-settle id (settle_player turn actions outcomes b p.player_id) ps d.1,
        lookup_or-insert zero_score p.player_id id after b.scores,
        total-count_outcome (lookup_or "" p.player_id outcomes) score,
        eq_iff p.player_id id,
        eq_iff id p.player_id,
      )

  abbrev pub entry : String → SelfRound
  entry id = record {
    round = turn;
    action = lookup_or "" id actions;
    result = lookup_or "" id outcomes;
  }

  pub settle_history :
      (id : String) (b : Books) (ps : List Player)
      → Distinct (ids_of ps)
      → lookup_or [] id (settle turn actions outcomes b ps).self_history ≡ (
          if contains id (ids_of ps)
          then lookup_or [] id b.self_history ++ entry id ∷ []
          else lookup_or [] id b.self_history)
  unfolding settle contains settle_player
  settle_history id b [] d = refl
  settle_history id b (p ∷ ps) d =
      let after = lookup_or [] p.player_id b.self_history ++ entry p.player_id ∷ [] in
      ground (
        arith,
        settle_history id (settle_player turn actions outcomes b p.player_id) ps d.1,
        lookup_or-insert [] p.player_id id after b.self_history,
        eq_iff p.player_id id,
        eq_iff id p.player_id,
      )

-- Every player has one outcome and one history entry for each round that was resolved.
pub record IsBalanced (m : Master) : Type 0 where
  pub distinct : Distinct (ids_of m.players)
  pub counted :
      (id : String)
      → contains id (ids_of m.players) ≡ true
      → total (lookup_or zero_score id m.scores) ≡ m.resolved
  pub recorded :
      (id : String)
      → contains id (ids_of m.players) ≡ true
      → length (lookup_or [] id m.self_history) ≡ m.resolved
  pub published : length m.public_history ≡ m.resolved

commit_round-IsBalanced :
    (m : Master) (turn : ℤ) (ss : List ActionStatus)
    → IsBalanced m
    → IsBalanced (commit_round m turn (tally_of m ss))
unfolding commit_round tally_of tally_statuses
commit_round-IsBalanced m turn ss b =
    let t = tally_of m ss in
    let books : Books = record { scores = t.scores; self_history = m.self_history } in
    record {
      distinct = b.distinct;
      counted = λ id c. ground (
        arith,
        total-settle turn t.actions (outcomes_of t) id books m.players b.distinct,
        total-tally_statuses id (tally_of m []) ss,
        b.counted id c,
      );
      recorded = λ id c. ground (
        arith,
        settle_history turn t.actions (outcomes_of t) id books m.players b.distinct,
        length-append (lookup_or [] id m.self_history)
            (entry turn t.actions (outcomes_of t) id ∷ []),
        b.recorded id c,
      );
      published = omega (
        arith,
        b.published,
        length-append m.public_history
            (record { round = turn; actions = t.actions; results = outcomes_of t } ∷ []),
      );
    }

pub apply_step_commits :
    (m : Master) (step : DecisionStep) (ss : List ActionStatus) (m' : Master)
    → apply_step m step ss ≡ ok m'
    → (m' ≡ commit_round m step.turn (tally_of m ss)) × (length ss ≡ length m.players)
unfolding apply_step
apply_step_commits m step ss m' h = ground arith

-- A step that is applied keeps the balance, whatever the statuses say: with distinct player ids,
-- every player has exactly one outcome and one history entry for each resolved round, and so has
-- the public history. It resolves one round more, for the same players.
pub apply_step-IsBalanced :
    (m : Master) (step : DecisionStep) (ss : List ActionStatus) (m' : Master)
    → IsBalanced m
    → apply_step m step ss ≡ ok m'
    → IsBalanced m'
      × (m'.resolved ≡ m.resolved + 1)
      × (m'.players ≡ m.players)
      × (m'.rounds ≡ m.rounds)
unfolding commit_round
apply_step-IsBalanced m step ss m' b h =
    let e = (apply_step_commits m step ss m' h).0 in
    (subst IsBalanced (sym e) (commit_round-IsBalanced m step.turn ss b), rw e, rw e, rw e)

lookup_or-give_each {ℓ} :
    {V : Type ℓ} (z v : V) (id : String) (m : Dict V) (ps : List Player)
    → lookup_or z id m ≡ v
    → lookup_or z id (give_each (λ _. v) m ps) ≡ v
unfolding give_each
lookup_or-give_each z v id m [] h = h
lookup_or-give_each z v id m (p ∷ ps) h =
    lookup_or-give_each z v id (insert p.player_id v m) ps
      (ground (arith, lookup_or-insert z p.player_id id v m))

pub new-IsBalanced :
    (cfg : Config) (m : Master)
    → Distinct (ids_of cfg.players)
    → new cfg ≡ ok m
    → IsBalanced m × (m.resolved ≡ 0) × (m.players ≡ cfg.players) × (m.rounds ≡ 5)
unfolding new metadata_for_selection lookup_or
new-IsBalanced cfg m d h =
    let scores =
      λ (id : String). lookup_or-give_each zero_score zero_score id [] cfg.players refl in
    let history =
      λ (id : String). lookup_or-give_each {V = List SelfRound} [] [] id [] cfg.players refl in
    (
      record {
        distinct = ground arith;
        counted = λ id c. ground (arith, scores id);
        recorded = λ id c. ground (arith, history id);
        published = ground arith;
      },
      ground arith,
      ground arith,
      ground arith,
    )
