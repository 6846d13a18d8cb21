-- ===== src/Echo/Places.antt =====
-- internal/games/echo/echo.go: the places of the result count the players with a higher score.
use ai_arena.Prelude.{
  ◌+◌, String, true, false, not, ◌&&◌, List, [], ◌∷◌, map, ◌≡◌, refl, ◌⊎◌, inl, inr, arith, All,
}
use ai_arena.Prelude.Int.{ℤ, pos, negsuc, lt_int, same_int}
use mathlib.Core.Path.{fun_ext}
use mathlib.Core.List.{Perm}
use ai_arena.Standings.Orders.{WeakOrder, by_text, on, lex, lex-false}
use ai_arena.Standings.Sorting.{IsSorted, sort_slice-IsSorted, sort_slice-perm}
use ai_arena.Standings.Places.{better_than, places_count, better_than-sort_slice, map-map}
use ai_arena.Echo.Data.{Master}
use ai_arena.Echo.Steps.{score_in, comes_before, ranked_players, result}
use ai_arena.Echo.Snapshots.{ids_of}

pub lt_int-asym : (i j : ℤ) → lt_int i j ≡ true → lt_int j i ≡ false
unfolding lt_int
lt_int-asym (pos m) (pos n) h = ground arith
lt_int-asym (pos m) (negsuc n) h = ground arith
lt_int-asym (negsuc m) (pos n) h = refl
lt_int-asym (negsuc m) (negsuc n) h = ground arith

pub lt_int-cotrans : (i j k : ℤ) → lt_int i k ≡ true → (lt_int i j ≡ true) ⊎ (lt_int j k ≡ true)
unfolding lt_int
lt_int-cotrans (pos m) (pos n) (pos k) h = ground arith
lt_int-cotrans (pos m) (pos n) (negsuc k) h = ground arith
lt_int-cotrans (pos m) (negsuc n) (pos k) h = inr refl
lt_int-cotrans (pos m) (negsuc n) (negsuc k) h = ground arith
lt_int-cotrans (negsuc m) (pos n) (pos k) h = inl refl
lt_int-cotrans (negsuc m) (pos n) (negsuc k) h = inl refl
lt_int-cotrans (negsuc m) (negsuc n) (pos k) h = inr refl
lt_int-cotrans (negsuc m) (negsuc n) (negsuc k) h = ground arith

-- The higher score first.
abbrev pub higher : WeakOrder ℤ
higher = record {
  lt = λ i j. lt_int j i;
  asym = λ i j. lt_int-asym j i;
  cotrans = λ i j k h. elim (lt_int-cotrans k j i h) [ inl x ↦ inr x | inr x ↦ inl x ];
}

abbrev pub player_order : Master → WeakOrder String
player_order m = lex (on (score_in m.score) higher) by_text

comes_before-order : (m : Master) → comes_before m.score ≡ (player_order m).lt
unfolding comes_before same_int
comes_before-order m =
    fun_ext λ a. fun_ext λ b. ground (arith, lt_int-asym (score_in m.score a) (score_in m.score b))

same_tie : (k l : ℤ) → same_int k l ≡ (not (higher.lt k l) && not (higher.lt l k))
unfolding same_int
same_tie k l = ground arith

ranked-IsSorted : (m : Master) → IsSorted (player_order m).lt (ranked_players m)
unfolding ranked_players
ranked-IsSorted m =
    rw (comes_before-order m) (sort_slice-IsSorted (player_order m) (ids_of m.players))

All-by_score :
    (m : Master) (x : String) (ys : List String)
    → All (λ y. (player_order m).lt y x ≡ false) ys
    → All (λ y. higher.lt (score_in m.score y) (score_in m.score x) ≡ false) ys
All-by_score m x [] a = tt
All-by_score m x (y ∷ ys) a =
    (lex-false (on (score_in m.score) higher) by_text y x a.0, All-by_score m x ys a.1)

by_score :
    (m : Master) (xs : List String)
    → IsSorted (player_order m).lt xs
    → IsSorted (λ a b. higher.lt (score_in m.score a) (score_in m.score b)) xs
by_score m [] s = tt
by_score m (x ∷ xs) s = (All-by_score m x xs s.0, by_score m xs s.1)

better_than-ranked :
    (m : Master) (k : ℤ)
    → better_than (score_in m.score) higher k (ranked_players m)
      ≡ better_than (score_in m.score) higher k (ids_of m.players)
unfolding ranked_players
better_than-ranked m k =
    better_than-sort_slice (score_in m.score) higher k (comes_before m.score) (ids_of m.players)

-- The result lists every player once for each of its entries among the players, the highest score
-- first and ties by id; the place of each is one more than the number of players whose score is
-- higher, so that tied players share a place.
pub result_standing :
    (m : Master)
    → (result m
        ≡ map
            (λ id. record {
              player_id = id;
              place = pos (
                  better_than (score_in m.score) higher (score_in m.score id) (ids_of m.players)
                  + 1);
            })
            (ranked_players m))
      × Perm (ranked_players m) (ids_of m.players)
      × IsSorted (player_order m).lt (ranked_players m)
unfolding result ranked_players
result_standing m = (
  rw
      (places_count (score_in m.score) higher same_int same_tie (ranked_players m) (pos 0)
        (by_score m (ranked_players m) (ranked-IsSorted m)))
      (simp (map-map, better_than-ranked)),
  sort_slice-perm (comes_before m.score) (ids_of m.players),
  ranked-IsSorted m,
)
