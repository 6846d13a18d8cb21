-- ===== src/Janken/Matches.antt =====
-- A match from its first round to its last.
use ai_arena.Prelude.{
  ℕ, suc, ◌≤◌, List, [], ◌∷◌, none, some, ◌≡◌, refl, ◌↔◌, arith, length, All, Result, ok, ◌>>=◌,
  Distinct, inl, inr, if◌then◌else◌, Bool-cases, subst, sym, map, ◌+◌, leb,
}
use ai_arena.Contract.{ActionStatus, DecisionStep, simultaneous}
use ai_arena.Janken.Data.{Config, Master, new, JankenError, ids_of}
use ai_arena.Janken.Master.{next_step, apply_step, legal_action_hint, commit_round, tally_of}
use ai_arena.Prelude.Int.{pos}
use ai_arena.Janken.Views.{visible_state}
use ai_arena.Janken.Rounds.{IsBalanced, new-IsBalanced, apply_step-IsBalanced}

-- The steps of the runner's loop: ask for the step, and apply what came back, until there is none.
pub play : Master → List (List ActionStatus) → Result JankenError Master
play m [] = ok m
play m (ss ∷ rest) = elim (next_step m) [
  | none ↦ ok m
  | some step ↦ apply_step m step ss >>= λ m'. play m' rest
]

pub next_step-none : (m : Master) → m.rounds ≤ m.resolved → next_step m ≡ none
unfolding next_step
next_step-none m h = ground arith

next_step-some :
    (m : Master)
    → suc m.resolved ≤ m.rounds
    → (step : DecisionStep) × (next_step m ≡ some step) × (step.mode ≡ simultaneous)
unfolding next_step
next_step-some m h =
    let step : DecisionStep = record {
      turn = pos (m.resolved + 1);
      mode = simultaneous;
      requests =
          map
            (λ p. record {
              player_id = p.player_id;
              visible_state = visible_state m p.player_id;
              legal_action_hint = legal_action_hint;
              deadline = m.deadline;
            })
            m.players;
    } in
    (step, ground arith, refl)

apply_step_ok :
    (m : Master) (step : DecisionStep) (ss : List ActionStatus)
    → step.mode ≡ simultaneous
    → length ss ≡ length m.players
    → apply_step m step ss ≡ ok (commit_round m step.turn (tally_of m ss))
unfolding apply_step
apply_step_ok m step ss h l = ground (arith, h, l)

pub bounded : ℕ → ℕ → ℕ
bounded n bound = if leb n bound then n else bound

-- Rounds of one status per player: the match resolves them up to its bound and then asks no more.
play_resolves :
    (m : Master) (rs : List (List ActionStatus))
    → IsBalanced m
    → m.resolved ≤ m.rounds
    → All (λ ss. length ss ≡ length m.players) rs
    → (m' : Master) × (play m rs ≡ ok m')
      × IsBalanced m'
      × (m'.resolved ≡ bounded (m.resolved + length rs) m.rounds)
      × (m'.rounds ≡ m.rounds)
unfolding play bounded
play_resolves m [] b h a = (m, refl, b, ground arith, refl)
play_resolves m (ss ∷ rest) b h (l, a) = elim (Bool-cases (leb m.rounds m.resolved)) [
  | inl full ↦ (m, ground (arith, next_step-none m (ground arith)), b, ground arith, refl)
  | inr more ↦
      let (step, asked, mode) = next_step-some m (ground arith) in
      let next = commit_round m step.turn (tally_of m ss) in
      let applied = apply_step_ok m step ss mode l in
      let (b', r, p, n) = apply_step-IsBalanced m step ss next b applied in
      let (m', played, balanced, resolved, rounds) =
        play_resolves next rest b' (ground arith)
          (subst (λ ps. All (λ ss. length ss ≡ length ps) rest) (sym p) a) in
      (m', ground (arith, asked, applied, played), balanced, ground arith, ground arith)
]

-- A new match with distinct player ids, given lists of one status per player whatever the statuses
-- say, resolves one round for each list until there are five, and fails at none. It asks for
-- another step exactly while fewer than five are resolved, and the books stay balanced.
pub play_completes :
    (cfg : Config) (m : Master) (rs : List (List ActionStatus))
    → Distinct (ids_of cfg.players)
    → new cfg ≡ ok m
    → All (λ ss. length ss ≡ length cfg.players) rs
    → (m' : Master) × (play m rs ≡ ok m')
      × IsBalanced m'
      × (m'.resolved ≡ bounded (length rs) 5)
      × (next_step m' ≡ none ↔ 5 ≤ length rs)
unfolding next_step bounded
play_completes cfg m rs d made a =
    let (b, zero_resolved, players, five) = new-IsBalanced cfg m d made in
    let sized = subst (λ ps. All (λ ss. length ss ≡ length ps) rs) (sym players) a in
    let (m', played, balanced, resolved, rounds) = play_resolves m rs b (ground arith) sized in
    (m', played, balanced, ground arith, ground arith)
