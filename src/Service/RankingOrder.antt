-- ===== src/Service/RankingOrder.antt =====
-- The order of the entries of a ranking snapshot: sorting and normalizing twice changes nothing.
use ai_arena.Prelude.{
  Bool, false, List, [], ◌∷◌, map, All, trim_space_idem, ◌≡◌, refl, ap, ◌∙◌, arith, Bool-cases, inl,
  inr,
}
use ai_arena.Standings.Orders.{by_text, on}
use ai_arena.Standings.Sorting.{place_in, sort_slice, IsSorted, sort_slice-IsSorted}
use ai_arena.Service.Ranking.{RankingEntry, normalize_entry, by_bot_id, sorted_entries}

module _ {ℓ} {A : Type ℓ} where
  All-place_in :
      (less : A → A → Bool) (P : A → Type 0) (x : A) (xs : List A)
      → P x
      → All P xs
      → All P (place_in less x xs)
  unfolding place_in
  All-place_in less P x [] h a = (h, tt)
  All-place_in less P x (y ∷ ys) h a = elim (Bool-cases (less y x)) [
    | inl e ↦ rw e (a.0, All-place_in less P x ys h a.1)
    | inr e ↦ rw e (h, a)
  ]

  pub All-sort_slice :
      (less : A → A → Bool) (P : A → Type 0) (xs : List A) → All P xs → All P (sort_slice less xs)
  unfolding sort_slice
  All-sort_slice less P [] a = tt
  All-sort_slice less P (x ∷ xs) a =
      All-place_in less P x (sort_slice less xs) a.0 (All-sort_slice less P xs a.1)

  place_in_first :
      (less : A → A → Bool) (x : A) (xs : List A)
      → All (λ y. less y x ≡ false) xs
      → place_in less x xs ≡ x ∷ xs
  unfolding place_in
  place_in_first less x [] a = refl
  place_in_first less x (y ∷ ys) a = rw (a.0) refl

  -- What is sorted stays as it is.
  sort_slice_sorted :
      (less : A → A → Bool) (xs : List A) → IsSorted less xs → sort_slice less xs ≡ xs
  unfolding sort_slice
  sort_slice_sorted less [] s = refl
  sort_slice_sorted less (x ∷ xs) s =
      ap (place_in less x) (sort_slice_sorted less xs s.1) ∙ place_in_first less x xs s.0

  map_same : (f : A → A) (xs : List A) → All (λ x. f x ≡ x) xs → map f xs ≡ xs
  map_same f [] a = refl
  map_same f (x ∷ xs) a = ap (λ y. y ∷ map f xs) a.0 ∙ ap (λ ys. x ∷ ys) (map_same f xs a.1)

  pub All-map :
      (f : A → A) (P Q : A → Type 0) (xs : List A)
      → ((x : A) → P x → Q (f x))
      → All P xs
      → All Q (map f xs)
  All-map f P Q [] g a = tt
  All-map f P Q (x ∷ xs) g a = (g x a.0, All-map f P Q xs g a.1)

pub sorted_entries-IsSorted : (es : List RankingEntry) → IsSorted by_bot_id (sorted_entries es)
unfolding sorted_entries
sorted_entries-IsSorted es =
    sort_slice-IsSorted (on (λ (e : RankingEntry). e.bot_id) by_text) (map normalize_entry es)

normalize_entry_idem : (e : RankingEntry) → normalize_entry (normalize_entry e) ≡ normalize_entry e
unfolding normalize_entry
normalize_entry_idem e = ground (
  arith,
  trim_space_idem e.bot_id,
  trim_space_idem e.bot_name,
  trim_space_idem e.last_player_id,
  trim_space_idem e.last_run_id,
  trim_space_idem e.last_match_id,
)

All-normal : (es : List RankingEntry) → All (λ e. normalize_entry e ≡ e) (map normalize_entry es)
All-normal [] = tt
All-normal (e ∷ es) = (normalize_entry_idem e, All-normal es)

pub sorted_entries_idem :
    (es : List RankingEntry) → sorted_entries (sorted_entries es) ≡ sorted_entries es
unfolding sorted_entries
sorted_entries_idem es =
    ap (sort_slice by_bot_id) (
      map_same normalize_entry (sorted_entries es) (
        All-sort_slice by_bot_id (λ e. normalize_entry e ≡ e) (map normalize_entry es)
          (All-normal es)))
    ∙ sort_slice_sorted by_bot_id (sorted_entries es) (sorted_entries-IsSorted es)
