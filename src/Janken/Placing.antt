-- ===== src/Janken/Placing.antt =====
-- internal/games/janken/janken.go: the result of a match.
use ai_arena.Prelude.{String, Bool, ◌&&◌, List, map, ◌==◌, ltb, if◌then◌else◌, lookup_or, text_lt}
use ai_arena.Prelude.Int.{pos}
use ai_arena.Contract.{Placement}
use ai_arena.Janken.Data.{Score, zero_score, Master}
use ai_arena.Standings.Sorting.{sort_slice}
use ai_arena.Standings.Places.{places_from}

abbrev pub score_of : Master → String → Score
score_of m id = lookup_or zero_score id m.scores

-- The test of sort.Slice on two players and their scores.
unfoldable pub comes_before : Score → Score → String → String → Bool
comes_before left right a b =
    if left.wins == right.wins
    then if left.losses == right.losses
      then if left.timeouts == right.timeouts
        then if left.invalid_actions == right.invalid_actions
          then text_lt a b
          else ltb left.invalid_actions right.invalid_actions
        else ltb left.timeouts right.timeouts
      else ltb left.losses right.losses
    else ltb right.wins left.wins

abbrev pub less : Master → String → String → Bool
less m a b = comes_before (score_of m a) (score_of m b) a b

unfoldable pub score_equal_for_placement : Score → Score → Bool
score_equal_for_placement left right =
    left.wins == right.wins
    && (left.losses == right.losses
        && (left.timeouts == right.timeouts && left.invalid_actions == right.invalid_actions))

unfoldable pub ordered : Master → List String
unfolding comes_before sort_slice text_lt
ordered m = sort_slice (less m) m.player_ids

unfoldable pub result : Master → List Placement
unfolding ordered score_equal_for_placement places_from
result m =
    map (λ p. record { player_id = p.0; place = pos p.1 })
      (places_from (score_of m) score_equal_for_placement 0 0 zero_score (ordered m))
