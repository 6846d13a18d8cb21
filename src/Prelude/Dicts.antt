-- ===== src/Prelude/Dicts.antt =====
-- Go maps with string keys, as association lists.
use Prim.Native.String.{String}
use mathlib.Core.Path.{◌≡◌, refl}
use mathlib.Core.Bool.{true, false, ◌||◌}
use mathlib.Core.Option.{Option, none, some}
use mathlib.Core.List.{List, [], ◌∷◌, map}
use native.Mathlib.Omega.{arith}
use text.Mathlib.TextEquality.{eq_iff}
use ai_arena.Prelude.Tests.{◌is◌, if◌then◌else◌}
use ai_arena.Prelude.Lists.{contains, Distinct}

abbrev pub Dict {ℓ} : Type ℓ → Type ℓ
Dict V = List (String × V)

abbrev pub keys {ℓ} : {V : Type ℓ} → Dict V → List String
keys = map λ p. p.0

module _ {ℓ} {V : Type ℓ} where
  -- v, ok := m[key]
  unfoldable pub lookup : String → Dict V → Option V
  lookup key [] = none
  lookup key ((at, found) ∷ more) = if at is key then some found else lookup key more

  -- m[key], with the zero value of a missing key.
  unfoldable pub lookup_or : V → String → Dict V → V
  lookup_or zero_value key [] = zero_value
  lookup_or zero_value key ((at, found) ∷ more) =
      if at is key then found else lookup_or zero_value key more

  -- m[key] = new
  unfoldable pub insert : String → V → Dict V → Dict V
  insert key new [] = (key, new) ∷ []
  insert key new ((at, old) ∷ more) =
      if at is key then (key, new) ∷ more else (at, old) ∷ insert key new more

  -- delete(m, key)
  unfoldable pub delete : String → Dict V → Dict V
  delete key [] = []
  delete key ((at, old) ∷ more) = if at is key then delete key more else (at, old) ∷ delete key more

  pub lookup-insert :
      (at wanted : String) (new : V) (m : Dict V)
      → lookup wanted (insert at new m) ≡ (if at is wanted then some new else lookup wanted m)
  unfolding insert lookup
  lookup-insert at wanted new [] = refl
  lookup-insert at wanted new ((key, old) ∷ more) =
      ground (
        arith,
        lookup-insert at wanted new more,
        eq_iff at wanted,
        eq_iff key at,
        eq_iff key wanted,
      )

  pub lookup-delete :
      (k j : String) (m : Dict V) → lookup j (delete k m) ≡ (if k is j then none else lookup j m)
  unfolding lookup delete
  lookup-delete k j [] = ground (arith, eq_iff k j)
  lookup-delete k j ((i, w) ∷ m) =
      ground (arith, eq_iff k j, eq_iff i k, eq_iff i j, lookup-delete k j m)

  pub lookup_or-insert :
      (z : V) (k j : String) (v : V) (m : Dict V)
      → lookup_or z j (insert k v m) ≡ (if k is j then v else lookup_or z j m)
  unfolding lookup_or insert
  lookup_or-insert z k j v [] = refl
  lookup_or-insert z k j v ((i, w) ∷ m) =
      ground (arith, eq_iff k j, eq_iff i k, eq_iff i j, lookup_or-insert z k j v m)

  pub lookup_or-lookup :
      (z : V) (k : String) (m : Dict V)
      → lookup_or z k m ≡ elim (lookup k m) [ none ↦ z | some v ↦ v ]
  unfolding lookup_or lookup
  lookup_or-lookup z k [] = refl
  lookup_or-lookup z k ((i, w) ∷ m) = ground (arith, lookup_or-lookup z k m)

  pub contains-keys :
      (k : String) (m : Dict V)
      → contains k (keys m) ≡ elim (lookup k m) [ none ↦ false | some _ ↦ true ]
  unfolding lookup contains
  contains-keys k [] = refl
  contains-keys k ((i, w) ∷ m) = ground (arith, eq_iff k i, eq_iff i k, contains-keys k m)

  pub contains-keys-insert :
      (k j : String) (v : V) (m : Dict V)
      → contains j (keys (insert k v m)) ≡ (contains j (keys m) || j is k)
  unfolding insert contains
  contains-keys-insert k j v [] = ground arith
  contains-keys-insert k j v ((i, w) ∷ m) =
      ground (arith, contains-keys-insert k j v m, eq_iff i k, eq_iff j k, eq_iff j i)

  -- An assignment keeps the keys distinct.
  pub Distinct-insert :
      (k : String) (v : V) (m : Dict V) → Distinct (keys m) → Distinct (keys (insert k v m))
  unfolding insert contains
  Distinct-insert k v [] d = ground arith
  Distinct-insert k v ((i, w) ∷ m) d =
      ground (arith, Distinct-insert k v m d.1, contains-keys-insert k i v m, eq_iff i k)
