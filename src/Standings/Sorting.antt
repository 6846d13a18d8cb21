-- ===== src/Standings/Sorting.antt =====
-- sort.Slice with a strict weak order, and what it promises.
use ai_arena.Prelude.{
  Bool, false, List, [], ◌∷◌, ◌≡◌, arith, if◌then◌else◌, Bool-cases, inl, inr, All,
}
use ai_arena.Standings.Orders.{WeakOrder}
use mathlib.Core.List.{Perm}
use mathlib.Core.List.Perm

module _ {ℓ} {A : Type ℓ} where
  unfoldable pub place_in : (A → A → Bool) → A → List A → List A
  place_in less x [] = x ∷ []
  place_in less x (y ∷ ys) = if less y x then y ∷ place_in less x ys else x ∷ y ∷ ys

  -- sort.Slice(xs, less)
  unfoldable pub sort_slice : (A → A → Bool) → List A → List A
  unfolding place_in
  sort_slice less [] = []
  sort_slice less (x ∷ xs) = place_in less x (sort_slice less xs)

  -- No later element comes before an earlier one.
  abbrev pub IsSorted : (A → A → Bool) → List A → Type ℓ
  IsSorted less [] = Unit
  IsSorted less (x ∷ xs) = All (λ y. less y x ≡ false) xs × IsSorted less xs

  place_in-perm : (less : A → A → Bool) (x : A) (xs : List A) → Perm (place_in less x xs) (x ∷ xs)
  unfolding place_in
  place_in-perm less x [] = Perm.refl (x ∷ [])
  place_in-perm less x (y ∷ ys) = elim (Bool-cases (less y x)) [
    | inl e ↦ rw e (Perm.trans (Perm.cons y (place_in-perm less x ys)) (Perm.swap x y ys))
    | inr e ↦ rw e (Perm.refl (x ∷ y ∷ ys))
  ]

  pub sort_slice-perm : (less : A → A → Bool) (xs : List A) → Perm (sort_slice less xs) xs
  unfolding sort_slice
  sort_slice-perm less [] = Perm.refl []
  sort_slice-perm less (x ∷ xs) =
      Perm.trans (place_in-perm less x (sort_slice less xs)) (Perm.cons x (sort_slice-perm less xs))

module _ {ℓ} {A : Type ℓ} (o : WeakOrder A) where
  All-place_in :
      (P : A → Type 0) (x : A) (xs : List A) → P x → All P xs → All P (place_in o.lt x xs)
  unfolding place_in
  All-place_in P x [] h a = (h, tt)
  All-place_in P x (y ∷ ys) h a = elim (Bool-cases (o.lt y x)) [
    | inl e ↦ rw e (a.0, All-place_in P x ys h a.1)
    | inr e ↦ rw e (h, a)
  ]

  -- What does not come before y does not come before what y does not follow.
  All-below :
      (x y : A) (ys : List A)
      → o.lt y x ≡ false
      → All (λ z. o.lt z y ≡ false) ys
      → All (λ z. o.lt z x ≡ false) ys
  All-below x y [] h a = tt
  All-below x y (z ∷ ys) h a = (ground (arith, a.0, o.cotrans z y x), All-below x y ys h a.1)

  place_in-IsSorted : (x : A) (xs : List A) → IsSorted o.lt xs → IsSorted o.lt (place_in o.lt x xs)
  unfolding place_in
  place_in-IsSorted x [] s = (tt, tt)
  place_in-IsSorted x (y ∷ ys) s = elim (Bool-cases (o.lt y x)) [
    | inl e ↦
        rw e
          (All-place_in (λ z. o.lt z y ≡ false) x ys (o.asym y x e) s.0, place_in-IsSorted x ys s.1)
    | inr e ↦ rw e ((e, All-below x y ys e s.0), s)
  ]

  pub sort_slice-IsSorted : (xs : List A) → IsSorted o.lt (sort_slice o.lt xs)
  unfolding sort_slice
  sort_slice-IsSorted [] = tt
  sort_slice-IsSorted (x ∷ xs) = place_in-IsSorted x (sort_slice o.lt xs) (sort_slice-IsSorted xs)
