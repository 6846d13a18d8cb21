-- ===== src/Janken/Outcomes.antt =====
-- The outcomes of a round against the rules of the game.
use ai_arena.Prelude.{
  ℕ, ◌+◌, String, Bool, true, false, ◌||◌, [], ◌∷◌, Option, none, some, ◌is◌, if◌then◌else◌, Dict,
  keys, lookup, insert, length, Distinct, contains, contains-keys, lookup-insert, ◌≡◌, refl, ◌∙◌,
  ◌⊎◌, inl, inr, arith, eq_iff, Option-cases, ◌==◌,
}
use ai_arena.Janken.Rules.{
  is_playable_action, assign_each, collect_choices, is_present, winning_action_for_choices,
  win_or_loss, resolve_valid_outcomes,
}

-- Some player of the map plays x.
abbrev pub plays : String → Dict String → Bool
plays x [] = false
plays x ((p, c) ∷ m) = c is x || plays x m

-- What an action beats, and what beats it.
abbrev pub prey : String → String
prey c = if c is "rock" then "scissors" else if c is "scissors" then "paper" else "rock"

abbrev pub predator : String → String
predator c = if c is "rock" then "paper" else if c is "scissors" then "rock" else "scissors"

-- The rules: an action wins if it beats another that is played and none that is played beats it,
-- loses in the converse case, and draws otherwise.
abbrev pub verdict : String → Dict String → String
verdict c m =
    if plays (prey c) m
    then if plays (predator c) m then "draw" else "win"
    else if plays (predator c) m
    then "loss"
    else "draw"

abbrev pub AllPlayable : Dict String → Type 0
AllPlayable [] = Unit {0}
AllPlayable ((p, c) ∷ m) = (is_playable_action c ≡ true) × AllPlayable m

pub playable_cases :
    (c : String) → is_playable_action c ≡ true → (c ≡ "rock") ⊎ ((c ≡ "paper") ⊎ (c ≡ "scissors"))
unfolding is_playable_action
playable_cases c h = ground (arith, eq_iff c "rock", eq_iff c "paper", eq_iff c "scissors")

lookup-collect_choices :
    (x : String) (ch : Dict (Unit {0})) (m : Dict String)
    → lookup x (collect_choices ch m) ≡ (if plays x m then some tt else lookup x ch)
unfolding collect_choices
lookup-collect_choices x ch [] = refl
lookup-collect_choices x ch ((p, c) ∷ m) =
    ground (arith, lookup-collect_choices x (insert c tt ch) m, lookup-insert c x tt ch)

abbrev one_if : Option (Unit {0}) → ℕ
one_if none = 0
one_if (some _) = 1

-- How many of the three actions a set of choices has.
abbrev count : Dict (Unit {0}) → ℕ
count ch = one_if (lookup "rock" ch) + one_if (lookup "paper" ch) + one_if (lookup "scissors" ch)

length-insert :
    (x : String) (ch : Dict (Unit {0}))
    → length (insert x tt ch) + one_if (lookup x ch) ≡ length ch + 1
unfolding insert lookup
length-insert x [] = omega arith
length-insert x ((j, w) ∷ ch) = ground (arith, length-insert x ch)

count-insert :
    (c : String) (ch : Dict (Unit {0}))
    → is_playable_action c ≡ true
    → count (insert c tt ch) + one_if (lookup c ch) ≡ count ch + 1
count-insert c ch h = elim (playable_cases c h) [
  | inl e ↦ rw e (
      ground (
        arith,
        lookup-insert "rock" "rock" tt ch,
        lookup-insert "rock" "paper" tt ch,
        lookup-insert "rock" "scissors" tt ch,
      ))
  | inr (inl e) ↦ rw e (
      ground (
        arith,
        lookup-insert "paper" "rock" tt ch,
        lookup-insert "paper" "paper" tt ch,
        lookup-insert "paper" "scissors" tt ch,
      ))
  | inr (inr e) ↦ rw e (
      ground (
        arith,
        lookup-insert "scissors" "rock" tt ch,
        lookup-insert "scissors" "paper" tt ch,
        lookup-insert "scissors" "scissors" tt ch,
      ))
]

length-collect_choices :
    (ch : Dict (Unit {0})) (m : Dict String)
    → AllPlayable m
    → length ch ≡ count ch
    → length (collect_choices ch m) ≡ count (collect_choices ch m)
unfolding collect_choices
length-collect_choices ch [] a h = h
length-collect_choices ch ((p, c) ∷ m) a h =
    length-collect_choices (insert c tt ch) m a.1
      (omega (arith, count-insert c ch a.0, length-insert c ch))

lookup_of_fresh : (p : String) (m : Dict String) → contains p (keys m) ≡ false → lookup p m ≡ none
lookup_of_fresh p m h = ground (arith, contains-keys p m)

lookup-assign_each :
    (f : String → String) (q : String) (out m : Dict String)
    → Distinct (keys m)
    → lookup q (assign_each f out m)
      ≡ elim (lookup q m) [ none ↦ lookup q out | some c ↦ some (f c) ]
unfolding assign_each lookup
lookup-assign_each f q out [] d = refl
lookup-assign_each f q out ((p, c) ∷ m) d = ground (
  arith,
  lookup-assign_each f q (insert p (f c) out) m d.1,
  lookup-insert p q (f c) out,
  lookup_of_fresh p m d.0,
  eq_iff p q,
)

-- A player's action is playable, and someone plays it.
lookup_played :
    (p : String) (m : Dict String) (c : String)
    → AllPlayable m
    → lookup p m ≡ some c
    → (is_playable_action c ≡ true) × (plays c m ≡ true)
unfolding lookup
lookup_played p [] c a h = cc
lookup_played p ((q, d) ∷ m) c a h = ground (arith, lookup_played p m c a.1, eq_iff d c)

-- The outcome that the code gives to an action, in terms of who plays what.
outcome : Dict String → String → String
unfolding collect_choices winning_action_for_choices
outcome m c =
    let choices = collect_choices [] m in
    if length choices == 1 || length choices == 3
    then "draw"
    else win_or_loss (winning_action_for_choices choices) c

abbrev chosen : Bool → Option (Unit {0})
chosen b = if b then some tt else none

-- The outcome by which of the three actions are played.
abbrev outcome_at : Bool → Bool → Bool → String → String
outcome_at r p s c =
    let n = one_if (chosen r) + one_if (chosen p) + one_if (chosen s) in
    if n == 1 || n == 3
    then "draw"
    else win_or_loss
        (if (if is_present (chosen r) then is_present (chosen s) else false)
          then "rock"
          else if (if is_present (chosen s) then is_present (chosen p) else false)
          then "scissors"
          else "paper")
        c

outcome-outcome_at :
    (m : Dict String) (c : String)
    → AllPlayable m
    → outcome m c ≡ outcome_at (plays "rock" m) (plays "paper" m) (plays "scissors" m) c
unfolding outcome lookup
outcome-outcome_at m c a = rw (
  length-collect_choices [] m a refl,
  lookup-collect_choices "rock" [] m,
  lookup-collect_choices "paper" [] m,
  lookup-collect_choices "scissors" [] m,
)

abbrev weigh : Bool → Bool → String
weigh beats beaten =
    if beats then if beaten then "draw" else "win" else if beaten then "loss" else "draw"

rock_table : (p s : Bool) → outcome_at true p s "rock" ≡ weigh s p
rock_table true true = refl
rock_table true false = refl
rock_table false true = refl
rock_table false false = refl

paper_table : (r s : Bool) → outcome_at r true s "paper" ≡ weigh r s
paper_table true true = refl
paper_table true false = refl
paper_table false true = refl
paper_table false false = refl

scissors_table : (r p : Bool) → outcome_at r p true "scissors" ≡ weigh p r
scissors_table true true = refl
scissors_table true false = refl
scissors_table false true = refl
scissors_table false false = refl

outcome-verdict :
    (m : Dict String) (c : String)
    → AllPlayable m
    → is_playable_action c ≡ true
    → plays c m ≡ true
    → outcome m c ≡ verdict c m
outcome-verdict m c a h q = outcome-outcome_at m c a ∙ elim (playable_cases c h) [
  | inl e ↦ rw (e, rw e at q) (rock_table (plays "paper" m) (plays "scissors" m))
  | inr (inl e) ↦ rw (e, rw e at q) (paper_table (plays "rock" m) (plays "scissors" m))
  | inr (inr e) ↦ rw (e, rw e at q) (scissors_table (plays "rock" m) (plays "paper" m))
]

resolve_as_outcome :
    (p : String) (m : Dict String)
    → Distinct (keys m)
    → (length m == 0) ≡ false
    → lookup p (resolve_valid_outcomes m)
      ≡ elim (lookup p m) [ none ↦ none | some c ↦ some (outcome m c) ]
unfolding resolve_valid_outcomes outcome lookup
resolve_as_outcome p m d ne =
    let winning = winning_action_for_choices (collect_choices [] m) in
    ground (
      arith,
      lookup-assign_each (λ _. "draw") p [] m d,
      lookup-assign_each (win_or_loss winning) p [] m d,
    )

-- Each player with a playable action gets the outcome that the rules of the game give it, and
-- nobody else gets one.
pub resolve_valid_outcomes_lem :
    (p : String) (m : Dict String)
    → AllPlayable m
    → Distinct (keys m)
    → lookup p (resolve_valid_outcomes m)
      ≡ elim (lookup p m) [ none ↦ none | some c ↦ some (verdict c m) ]
resolve_valid_outcomes_lem p [] a d = unfold resolve_valid_outcomes lookup in refl
resolve_valid_outcomes_lem p ((q, b) ∷ m) a d =
    let whole : Dict String = (q, b) ∷ m in
    let eq = resolve_as_outcome p whole d (ground arith) in
    elim (Option-cases (lookup p whole)) [
      | inl e ↦ ground (arith, eq, e)
      | inr (c, e) ↦
          let (h, r) = lookup_played p whole c a e in
          ground (arith, eq, e, outcome-verdict whole c a h r)
    ]
