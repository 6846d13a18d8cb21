-- ===== src/Janken/Rules.antt =====
-- internal/games/janken/janken.go: who wins a round.
use ai_arena.Prelude.{
  String, Bool, true, false, ◌||◌, [], ◌∷◌, Option, none, some, ◌is◌, if◌then◌else◌, Dict, lookup,
  insert, length, ◌==◌,
}

unfoldable pub is_playable_action : String → Bool
is_playable_action v = v is "rock" || (v is "paper" || v is "scissors")

-- A loop over a map that gives each of its keys a value in another map.
unfoldable pub assign_each : (String → String) → Dict String → Dict String → Dict String
assign_each f out [] = out
assign_each f out ((p, c) ∷ m) = assign_each f (insert p (f c) out) m

unfoldable pub collect_choices : Dict (Unit {0}) → Dict String → Dict (Unit {0})
collect_choices choices [] = choices
collect_choices choices ((p, c) ∷ m) = collect_choices (insert c tt choices) m

abbrev pub is_present : Option (Unit {0}) → Bool
is_present none = false
is_present (some _) = true

abbrev both : Bool → Bool → Bool
both a b = if a then b else false

unfoldable pub winning_action_for_choices : Dict (Unit {0}) → String
winning_action_for_choices choices =
    if both (is_present (lookup "rock" choices)) (is_present (lookup "scissors" choices))
    then "rock"
    else if both (is_present (lookup "scissors" choices)) (is_present (lookup "paper" choices))
    then "scissors"
    else "paper"

abbrev pub win_or_loss : String → String → String
win_or_loss winning choice = if choice is winning then "win" else "loss"

unfoldable pub resolve_valid_outcomes : Dict String → Dict String
unfolding assign_each collect_choices winning_action_for_choices
resolve_valid_outcomes valid_actions =
    let choices = collect_choices [] valid_actions in
    if length valid_actions == 0
    then []
    else if length choices == 1 || length choices == 3
    then assign_each (λ _. "draw") [] valid_actions
    else assign_each (win_or_loss (winning_action_for_choices choices)) [] valid_actions
