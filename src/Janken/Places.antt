-- ===== src/Janken/Places.antt =====
-- The places of a result count the players that did better.
use ai_arena.Prelude.{◌+◌, String, false, not, ◌&&◌, List, [], ◌∷◌, map, ◌≡◌, arith, All}
use mathlib.Core.Path.{fun_ext}
use mathlib.Core.List.{Perm}
use ai_arena.Prelude.Int.{pos}
use ai_arena.Janken.Data.{Score, zero_score, Master}
use ai_arena.Janken.Placing.{
  score_of, comes_before, less, score_equal_for_placement, ordered, result,
}
use ai_arena.Standings.Orders.{WeakOrder, ascending, descending, by_text, on, lex, lex-false}
use ai_arena.Standings.Sorting.{IsSorted, sort_slice-IsSorted, sort_slice-perm}
use ai_arena.Standings.Places.{better_than, places_count, better_than-sort_slice, map-map}

-- More wins are better; then fewer losses, fewer timeouts, and fewer invalid actions.
abbrev pub score_order : WeakOrder Score
score_order = lex (on (λ (s : Score). s.wins) descending) (
    lex (on (λ (s : Score). s.losses) ascending) (
      lex (on (λ (s : Score). s.timeouts) ascending)
        (on (λ (s : Score). s.invalid_actions) ascending)))

abbrev pub player_order : Master → WeakOrder String
player_order m = lex (on (score_of m) score_order) by_text

less-order : (m : Master) → less m ≡ (player_order m).lt
unfolding comes_before
less-order m = fun_ext λ a. fun_ext λ b. ground arith

same_tie :
    (k l : Score)
    → score_equal_for_placement k l ≡ (not (score_order.lt k l) && not (score_order.lt l k))
unfolding score_equal_for_placement
same_tie k l = ground arith

ordered-IsSorted : (m : Master) → IsSorted (player_order m).lt (ordered m)
unfolding ordered
ordered-IsSorted m = rw (less-order m) (sort_slice-IsSorted (player_order m) m.player_ids)

All-by_score :
    (m : Master) (x : String) (ys : List String)
    → All (λ y. (player_order m).lt y x ≡ false) ys
    → All (λ y. score_order.lt (score_of m y) (score_of m x) ≡ false) ys
All-by_score m x [] a = tt
All-by_score m x (y ∷ ys) a =
    (lex-false (on (score_of m) score_order) by_text y x a.0, All-by_score m x ys a.1)

ordered-perm : (m : Master) → Perm (ordered m) m.player_ids
unfolding ordered
ordered-perm m = sort_slice-perm (less m) m.player_ids

-- What is sorted by score and id is sorted by score.
by_score :
    (m : Master) (xs : List String)
    → IsSorted (player_order m).lt xs
    → IsSorted (λ a b. score_order.lt (score_of m a) (score_of m b)) xs
by_score m [] s = tt
by_score m (x ∷ xs) s = (All-by_score m x xs s.0, by_score m xs s.1)

better_than-ordered :
    (m : Master) (k : Score)
    → better_than (score_of m) score_order k (ordered m)
      ≡ better_than (score_of m) score_order k m.player_ids
unfolding ordered
better_than-ordered m k = better_than-sort_slice (score_of m) score_order k (less m) m.player_ids

-- The result lists every player once for each of its entries among the ids, in the order of the
-- scores, ties by id; and the place of each is one more than the number of players whose score is
-- strictly better, so that tied players share a place.
pub result_places :
    (m : Master)
    → (result m
        ≡ map
            (λ id. record {
              player_id = id;
              place = pos (better_than (score_of m) score_order (score_of m id) m.player_ids + 1);
            })
            (ordered m))
      × Perm (ordered m) m.player_ids
      × IsSorted (player_order m).lt (ordered m)
unfolding result
result_places m = (
  rw
      (places_count (score_of m) score_order score_equal_for_placement same_tie (ordered m)
        zero_score (by_score m (ordered m) (ordered-IsSorted m)))
      (simp (map-map, better_than-ordered)),
  ordered-perm m,
  ordered-IsSorted m,
)
