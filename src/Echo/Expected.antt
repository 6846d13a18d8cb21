-- ===== src/Echo/Expected.antt =====
-- internal/games/echo/echo.go: the number that a turn expects.
use ai_arena.Prelude.{
  ℕ, zero, suc, ◌+◌, ◌≤◌, String, Bool, true, false, List, [], ◌∷◌, none, some, ◌≡◌, refl, ap, ◌∙◌,
  arith, length, ok, Bool-cases, inl, inr, All, get_elem?,
}
use ai_arena.Standings.Sorting.{sort_slice, place_in, sort_slice-perm}
use mathlib.Core.List.{Perm}
use mathlib.Core.List.Perm
use ai_arena.Echo.Data.{
  Config, Master, Selection, select_ruleset, selection_for, count_from, last_or, expected_order,
  expected_for_resolved_count, new,
}
use ai_arena.Echo.Restoring.{new-made}

module _ {A : Type 0} (P : A → Type 0) where
  All-place_in :
      (less : A → A → Bool) (x : A) (xs : List A) → P x → All P xs → All P (place_in less x xs)
  unfolding place_in
  All-place_in less x [] p a = (p, tt)
  All-place_in less x (y ∷ ys) p a = elim (Bool-cases (less y x)) [
    | inl e ↦ rw e (a.0, All-place_in less x ys p a.1)
    | inr e ↦ rw e (p, a)
  ]

  All-sort_slice : (less : A → A → Bool) (xs : List A) → All P xs → All P (sort_slice less xs)
  unfolding sort_slice
  All-sort_slice less [] a = tt
  All-sort_slice less (x ∷ xs) a =
      All-place_in less x (sort_slice less xs) a.0 (All-sort_slice less xs a.1)

-- A turn of a match.
abbrev pub IsTurn : ℕ → ℕ → Type 0
IsTurn turns n = (1 ≤ n) × (n ≤ turns)

All-count_from : (turns k n : ℕ) → 1 ≤ n → k + n ≤ suc turns → All (IsTurn turns) (count_from k n)
unfolding count_from
All-count_from turns zero n h l = tt
All-count_from turns (suc k) n h l =
    ((h, omega (arith, l)), All-count_from turns k (suc n) (omega arith) (omega (arith, l)))

All-expected_order :
    (ranks : String → ℕ → ℕ → Bool) (turns : ℕ) (seed : String) (aware : Bool)
    → All (IsTurn turns) (expected_order ranks turns seed aware)
unfolding expected_order
All-expected_order ranks turns seed true =
    All-sort_slice (IsTurn turns) (ranks seed) (count_from turns 1)
      (All-count_from turns turns 1 (omega arith) (omega arith))
All-expected_order ranks turns seed false = All-count_from turns turns 1 (omega arith) (omega arith)

expected_order-perm :
    (ranks : String → ℕ → ℕ → Bool) (turns : ℕ) (seed : String) (aware : Bool)
    → Perm (expected_order ranks turns seed aware) (count_from turns 1)
unfolding expected_order
expected_order-perm ranks turns seed true = sort_slice-perm (ranks seed) (count_from turns 1)
expected_order-perm ranks turns seed false = Perm.refl (count_from turns 1)

module _ (P : ℕ → Type 0) where
  All-last_or : (n : ℕ) (xs : List ℕ) → P n → All P xs → P (last_or n xs)
  unfolding last_or
  All-last_or n [] p a = p
  All-last_or n (x ∷ xs) p a = All-last_or x xs a.0 a.1

  -- An element, or the one that is given.
  All-at :
      (xs : List ℕ) (i d : ℕ) → P d → All P xs → P (elim (get_elem? xs i) [ some n ↦ n | none ↦ d ])
  All-at [] i d p a = p
  All-at (x ∷ xs) zero d p a = a.0
  All-at (x ∷ xs) (suc i) d p a = All-at xs i d p a.1

  All-expected :
      (order : List ℕ) (resolved : ℕ)
      → 1 ≤ length order
      → All P order
      → P (expected_for_resolved_count order resolved)
  unfolding expected_for_resolved_count last_or
  All-expected [] resolved l a = absurd (omega (arith, l))
  All-expected (x ∷ xs) resolved l a =
      All-at (x ∷ xs) resolved (last_or x xs) (All-last_or x xs a.0 a.1) a

length-place_in :
    {A : Type 0} (less : A → A → Bool) (x : A) (xs : List A)
    → length (place_in less x xs) ≡ suc (length xs)
unfolding place_in
length-place_in less x [] = refl
length-place_in less x (y ∷ ys) = ground (arith, length-place_in less x ys)

length-sort_slice :
    {A : Type 0} (less : A → A → Bool) (xs : List A) → length (sort_slice less xs) ≡ length xs
unfolding sort_slice
length-sort_slice less [] = refl
length-sort_slice less (x ∷ xs) =
    length-place_in less x (sort_slice less xs) ∙ ap suc (length-sort_slice less xs)

length-count_from : (k n : ℕ) → length (count_from k n) ≡ k
unfolding count_from
length-count_from zero n = refl
length-count_from (suc k) n = ap suc (length-count_from k (suc n))

length-expected_order :
    (ranks : String → ℕ → ℕ → Bool) (turns : ℕ) (seed : String) (aware : Bool)
    → length (expected_order ranks turns seed aware) ≡ turns
unfolding expected_order
length-expected_order ranks turns seed true =
    length-sort_slice (ranks seed) (count_from turns 1) ∙ length-count_from turns 1
length-expected_order ranks turns seed false = length-count_from turns 1

turns-selection_for :
    (id version name : String) (selected : Selection)
    → selection_for id version name ≡ ok selected
    → 1 ≤ selected.turns
unfolding selection_for select_ruleset
turns-selection_for id version name selected e = ground (arith, e)

-- A match that was begun: its order has each of its turns from 1 on once, and whatever number of
-- turns is resolved, the number to expect is one of them.
pub expected_for_resolved_count-new :
    (ranks : String → ℕ → ℕ → Bool) (cfg : Config) (m : Master)
    → new ranks cfg ≡ ok m
    → Perm m.order (count_from m.turns 1)
      × (length m.order ≡ m.turns)
      × ((resolved : ℕ) → IsTurn m.turns (expected_for_resolved_count m.order resolved))
expected_for_resolved_count-new ranks cfg m e =
    let (selected, p, q, same) = new-made ranks cfg m e in
    let turns = turns-selection_for cfg.game_id cfg.game_version cfg.ruleset_name selected p in
    let seed = cfg.rng_seed in
    let sized = length-expected_order ranks selected.turns seed selected.seed_aware in
    rw same (
      expected_order-perm ranks selected.turns seed selected.seed_aware,
      sized,
      λ resolved.
          All-expected (IsTurn selected.turns)
            (expected_order ranks selected.turns seed selected.seed_aware) resolved
            (omega (arith, turns, sized))
            (All-expected_order ranks selected.turns seed selected.seed_aware),
    )
