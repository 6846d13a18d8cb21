-- ===== src/Standings/Places.antt =====
-- The loop that gives the places, and what the places count.
use ai_arena.Prelude.{
  ℕ, suc, ◌+◌, Bool, true, false, not, List, [], ◌∷◌, ◌++◌, ◌≡◌, refl, ◌⊎◌, arith, if◌then◌else◌,
  Bool-cases, inl, inr, length, All, ap, map, ltb, ◌&&◌, length-append,
}
use ai_arena.Standings.Orders.{WeakOrder, lt_irrefl}
use ai_arena.Standings.Sorting.{IsSorted, place_in, sort_slice}
use mathlib.Core.List.{append_assoc}

module _ {ℓ κ} {A : Type ℓ} {K : Type κ} where
  -- The loop over the sorted players: the index, the place and the key of the player before.
  unfoldable pub places_from : (A → K) → (K → K → Bool) → ℕ → ℕ → K → List A → List (A × ℕ)
  places_from key same i last previous [] = []
  places_from key same i last previous (x ∷ xs) =
      let place = if ltb 0 i && same (key x) previous then last else i + 1 in
      (x, place) ∷ places_from key same (i + 1) place (key x) xs

module _ {ℓ κ} {A : Type ℓ} {K : Type κ} (key : A → K) (o : WeakOrder K) where
  -- How many players are strictly better than a key.
  abbrev pub better_than : K → List A → ℕ
  better_than k [] = 0
  better_than k (y ∷ ys) = if o.lt (key y) k then suc (better_than k ys) else better_than k ys

  better_than-append :
      (k : K) (xs ys : List A) → better_than k (xs ++ ys) ≡ better_than k xs + better_than k ys
  better_than-append k [] ys = omega arith
  better_than-append k (x ∷ xs) ys = ground (arith, better_than-append k xs ys)

  better_than-none :
      (k : K) (xs : List A) → All (λ y. o.lt (key y) k ≡ false) xs → better_than k xs ≡ 0
  better_than-none k [] a = refl
  better_than-none k (x ∷ xs) a = ground (arith, better_than-none k xs a.1)

  -- Tied keys have the same players before them.
  better_than-tie :
      (k l : K) (xs : List A)
      → o.lt k l ≡ false
      → o.lt l k ≡ false
      → better_than k xs ≡ better_than l xs
  better_than-tie k l [] a b = refl
  better_than-tie k l (x ∷ xs) a b =
      ground (arith, better_than-tie k l xs a b, o.cotrans (key x) l k, o.cotrans (key x) k l)

  -- All come strictly before a key that comes strictly after what they do not follow.
  better_than-All :
      (k l : K) (xs : List A)
      → o.lt l k ≡ true
      → All (λ y. o.lt l (key y) ≡ false) xs
      → better_than k xs ≡ length xs
  better_than-All k l [] a b = refl
  better_than-All k l (x ∷ xs) a b =
      ground (arith, better_than-All k l xs a b.1, o.cotrans l (key x) k)

  All-snoc : (P : A → Type 0) (xs : List A) (x : A) → All P xs → P x → All P (xs ++ x ∷ [])
  All-snoc P [] x a h = (h, tt)
  All-snoc P (y ∷ ys) x a h = (a.0, All-snoc P ys x a.1 h)

  -- None of the players to come is better than one that is done.
  abbrev Follow : List A → List A → Type 0
  Follow done [] = Unit {0}
  Follow done (x ∷ xs) = All (λ y. o.lt (key x) (key y) ≡ false) done × Follow done xs

  Follow-snoc :
      (done : List A) (x : A) (xs : List A)
      → Follow done xs
      → All (λ y. o.lt (key y) (key x) ≡ false) xs
      → Follow (done ++ x ∷ []) xs
  Follow-snoc done x [] f a = tt
  Follow-snoc done x (y ∷ ys) f a =
      (All-snoc (λ z. o.lt (key y) (key z) ≡ false) done x f.0 a.0, Follow-snoc done x ys f.1 a.1)

  -- The state of the loop between the players that are done and those to come.
  abbrev Tracks : List A → List A → ℕ → K → Type 0
  Tracks done xs last previous =
      (length done ≡ 0)
      ⊎ (last ≡ better_than previous done + 1)
        × All (λ y. o.lt previous (key y) ≡ false) done
        × All (λ z. o.lt (key z) previous ≡ false) xs

  better_than-empty : (k : K) (ys : List A) → length ys ≡ 0 → better_than k ys ≡ 0
  better_than-empty k [] h = refl
  better_than-empty k (y ∷ ys) h = absurd (omega arith)

  abbrev SortedKeys : List A → Type ℓ
  SortedKeys xs = IsSorted (λ a b. o.lt (key a) (key b)) xs

  module _ (same : K → K → Bool)
      (same_tie : (k l : K) → same k l ≡ (not (o.lt k l) && not (o.lt l k))) where
    -- One place of the loop.
    place_step :
        (done : List A) (x : A) (xs : List A) (last : ℕ) (previous : K)
        → Tracks done (x ∷ xs) last previous
        → (if ltb 0 (length done) && same (key x) previous then last else length done + 1)
          ≡ better_than (key x) done + 1
    place_step done x xs last previous (inl e) = ground (arith, better_than-empty (key x) done)
    place_step done x xs last previous (inr (e, c, b)) = elim (Bool-cases (o.lt previous (key x))) [
      | inl h ↦ ground (arith, same_tie (key x) previous, better_than-All (key x) previous done h c)
      | inr h ↦ ground (
        arith,
        same_tie (key x) previous,
        better_than-tie (key x) previous done b.0 h,
        better_than-empty (key x) done,
      )
    ]

    counts_here :
        (done : List A) (x : A) (xs : List A)
        → All (λ y. o.lt (key y) (key x) ≡ false) xs
        → better_than (key x) (done ++ x ∷ xs) ≡ better_than (key x) done
    counts_here done x xs a = ground (
      arith,
      better_than-append (key x) done (x ∷ xs),
      better_than-none (key x) xs a,
      lt_irrefl o (key x),
    )

    places_from_counts :
        (done xs : List A) (last : ℕ) (previous : K)
        → Tracks done xs last previous
        → Follow done xs
        → SortedKeys xs
        → places_from key same (length done) last previous xs
          ≡ map (λ x. (x, better_than (key x) (done ++ xs) + 1)) xs
    unfolding places_from
    places_from_counts done [] last previous t f s = refl
    places_from_counts done (x ∷ xs) last previous t f s =
        let place : ℕ = better_than (key x) done + 1 in
        let further =
          places_from_counts (done ++ x ∷ []) xs place (key x)
            (inr (
              omega (arith, counts_here done x [] tt),
              All-snoc (λ y. o.lt (key x) (key y) ≡ false) done x f.0 (lt_irrefl o (key x)),
              s.0,
            ))
            (Follow-snoc done x xs f.1 s.0) s.1 in
        let one_more : length (done ++ x ∷ []) ≡ length done + 1 =
          omega (arith, length-append done (x ∷ [])) in
        rw (place_step done x xs last previous t, counts_here done x xs s.0)
          (ap (◌∷◌ (x, place)) (rw (one_more, append_assoc) at further))

    Follow-empty : (xs : List A) → Follow [] xs
    Follow-empty [] = tt
    Follow-empty (x ∷ xs) = (tt, Follow-empty xs)

    -- The place of a player is one more than the number of players that are strictly better.
    pub places_count :
        (xs : List A) (zero_key : K)
        → SortedKeys xs
        → places_from key same 0 0 zero_key xs ≡ map (λ x. (x, better_than (key x) xs + 1)) xs
    places_count xs zero_key s = places_from_counts [] xs 0 zero_key (inl refl) (Follow-empty xs) s

  better_than-place_in :
      (k : K) (less : A → A → Bool) (x : A) (xs : List A)
      → better_than k (place_in less x xs) ≡ better_than k (x ∷ xs)
  unfolding place_in
  better_than-place_in k less x [] = refl
  better_than-place_in k less x (y ∷ ys) = ground (arith, better_than-place_in k less x ys)

  -- Sorting does not change who is better.
  pub better_than-sort_slice :
      (k : K) (less : A → A → Bool) (xs : List A)
      → better_than k (sort_slice less xs) ≡ better_than k xs
  unfolding sort_slice
  better_than-sort_slice k less [] = refl
  better_than-sort_slice k less (x ∷ xs) =
      ground (
        arith,
        better_than-place_in k less x (sort_slice less xs),
        better_than-sort_slice k less xs,
      )

pub map-map {ℓ κ μ} :
    {A : Type ℓ} {B : Type κ} {C : Type μ} (f : A → B) (g : B → C) (xs : List A)
    → map g (map f xs) ≡ map (λ x. g (f x)) xs
map-map f g [] = refl
map-map f g (x ∷ xs) = ap (◌∷◌ (g (f x))) (map-map f g xs)
