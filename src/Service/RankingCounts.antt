-- ===== src/Service/RankingCounts.antt =====
-- The counts of a ranking snapshot.
use ai_arena.Prelude.{
  ℕ, ◌+◌, String, Bool, true, false, ◌||◌, List, [], ◌∷◌, map, ◌is◌, All, if◌then◌else◌, Dict,
  lookup_or, insert, contains, length, ok, ◌≡◌, refl, sym, subst, arith, Bool-cases, inl, inr, ◌⊎◌,
}
use ai_arena.Prelude.Int.{ℤ, pos, same_int}
use ai_arena.Prelude.Ints.{same_int_lem}
use ai_arena.Standings.Sorting.{IsSorted}
use ai_arena.Service.Ranking.{
  RankingEntry, RankingSnapshot, RankingPlacement, RankingUpdate, Counts, zero_entry,
  normalize_scope, normalize_entry, by_bot_id, sorted_entries, normalize_snapshot, same_scope,
  count_place, placed_entry, index_entries, place_all, values, count_update, apply_ranking_update,
}
use ai_arena.Service.RankingOrder.{All-sort_slice, All-map, sorted_entries-IsSorted}

abbrev pub sum : Counts → ℕ
sum [] = 0
sum ((p, n) ∷ counts) = n + sum counts

abbrev pub count_at : ℤ → Counts → ℕ
count_at place [] = 0
count_at place ((p, n) ∷ counts) = if same_int p place then n else count_at place counts

-- The matches of an entry are those of its places, and its first places those of place 1.
abbrev pub IsCounted : RankingEntry → Type 0
IsCounted e =
    (sum e.placement_counts ≡ e.matches_played)
    × (count_at (pos 1) e.placement_counts ≡ e.first_places)

sum-count_place : (place : ℤ) (counts : Counts) → sum (count_place place counts) ≡ sum counts + 1
unfolding count_place
sum-count_place place [] = ground arith
sum-count_place place ((p, n) ∷ counts) = ground (arith, sum-count_place place counts)

count_at-count_place :
    (place : ℤ) (counts : Counts)
    → count_at (pos 1) (count_place place counts)
      ≡ (if same_int place (pos 1) then count_at (pos 1) counts + 1 else count_at (pos 1) counts)
unfolding count_place
count_at-count_place place [] = ground arith
count_at-count_place place ((p, n) ∷ counts) = ground (
  arith,
  count_at-count_place place counts,
  same_int_lem p place,
  same_int_lem p (pos 1),
  same_int_lem place (pos 1),
)

placed_entry-IsCounted :
    (u : RankingUpdate) (p : RankingPlacement) (e : RankingEntry)
    → IsCounted e
    → IsCounted (placed_entry u p e)
unfolding placed_entry normalize_entry
placed_entry-IsCounted u p e c = (
  ground (arith, c.0, sum-count_place p.place e.placement_counts),
  ground (arith, c.1, count_at-count_place p.place e.placement_counts),
)

normalize_entry-IsCounted : (e : RankingEntry) → IsCounted e → IsCounted (normalize_entry e)
unfolding normalize_entry
normalize_entry-IsCounted e c = c

abbrev AllCounted : Dict RankingEntry → Type 0
AllCounted = All λ e. IsCounted (e.1)

AllCounted-insert :
    (id : String) (e : RankingEntry) (m : Dict RankingEntry)
    → IsCounted e
    → AllCounted m
    → AllCounted (insert id e m)
unfolding insert
AllCounted-insert id e [] c a = (c, tt)
AllCounted-insert id e ((j, x) ∷ m) c a = elim (Bool-cases (j is id)) [
  | inl q ↦ rw (q, insert) (c, a.1)
  | inr q ↦ rw (q, insert) (a.0, AllCounted-insert id e m c a.1)
]

IsCounted-lookup_or :
    (id : String) (m : Dict RankingEntry) → AllCounted m → IsCounted (lookup_or zero_entry id m)
unfolding lookup_or
IsCounted-lookup_or id [] a = (refl, refl)
IsCounted-lookup_or id ((j, x) ∷ m) a = elim (Bool-cases (j is id)) [
  | inl q ↦ rw (q, lookup_or) a.0
  | inr q ↦ rw (q, lookup_or) (IsCounted-lookup_or id m a.1)
]

index_entries-AllCounted :
    (m : Dict RankingEntry) (es : List RankingEntry)
    → AllCounted m
    → All IsCounted es
    → AllCounted (index_entries m es)
unfolding index_entries
index_entries-AllCounted m [] a c = a
index_entries-AllCounted m (e ∷ es) a c =
    index_entries-AllCounted (insert (normalize_entry e).bot_id (normalize_entry e) m) es
      (AllCounted-insert (normalize_entry e).bot_id (normalize_entry e) m
        (normalize_entry-IsCounted e c.0) a)
      c.1

place_all-AllCounted :
    (u : RankingUpdate) (m : Dict RankingEntry) (ps : List RankingPlacement)
    → AllCounted m
    → AllCounted (place_all u m ps)
unfolding place_all
place_all-AllCounted u m [] a = a
place_all-AllCounted u m (p ∷ ps) a =
    place_all-AllCounted u (insert p.bot_id (placed_entry u p (lookup_or zero_entry p.bot_id m)) m)
      ps
      (AllCounted-insert p.bot_id (placed_entry u p (lookup_or zero_entry p.bot_id m)) m
        (placed_entry-IsCounted u p (lookup_or zero_entry p.bot_id m)
          (IsCounted-lookup_or p.bot_id m a))
        a)

values-IsCounted : (m : Dict RankingEntry) → AllCounted m → All IsCounted (values m)
values-IsCounted [] a = tt
values-IsCounted (e ∷ m) a = (a.0, values-IsCounted m a.1)

sorted_entries-IsCounted :
    (es : List RankingEntry) → All IsCounted es → All IsCounted (sorted_entries es)
unfolding sorted_entries
sorted_entries-IsCounted es a =
    All-sort_slice by_bot_id IsCounted (map normalize_entry es)
      (All-map normalize_entry IsCounted IsCounted es normalize_entry-IsCounted a)

-- What holds of a snapshot that updates were applied to.
pub record IsRanked (s : RankingSnapshot) : Type 0 where
  pub counted : All IsCounted s.entries
  pub sorted : IsSorted by_bot_id s.entries
  pub matches : s.completed_matches ≡ length s.applied_match_ids

count_update-IsRanked :
    (s : RankingSnapshot) (u : RankingUpdate)
    → All IsCounted s.entries
    → IsRanked (count_update s u)
unfolding count_update
count_update-IsRanked s u c =
    let m = place_all u (index_entries [] s.entries) u.placements in
    record {
      counted = sorted_entries-IsCounted (values m) (
          values-IsCounted m (
            place_all-AllCounted u (index_entries [] s.entries) u.placements
              (index_entries-AllCounted [] s.entries tt c)));
      sorted = sorted_entries-IsSorted (values m);
      matches = refl;
    }

normalize_snapshot-IsRanked :
    (s : RankingSnapshot) → All IsCounted s.entries → IsRanked (normalize_snapshot s)
unfolding normalize_snapshot
normalize_snapshot-IsRanked s c = record {
  counted = sorted_entries-IsCounted s.entries c;
  sorted = sorted_entries-IsSorted s.entries;
  matches = refl;
}

abbrev pub seen : RankingUpdate → RankingSnapshot → Bool
seen u s = contains u.run_id s.applied_run_ids || contains u.match_id s.applied_match_ids

pub applied :
    (s s' : RankingSnapshot) (u : RankingUpdate)
    → apply_ranking_update s u ≡ ok s'
    → (same_scope (normalize_snapshot s).scope (normalize_scope u.scope) ≡ true)
      × ((seen u s ≡ true) × (s' ≡ normalize_snapshot s)
          ⊎ (seen u s ≡ false) × (s' ≡ count_update (normalize_snapshot s) u))
unfolding apply_ranking_update normalize_snapshot
applied s s' u h =
    elim (Bool-cases (same_scope (normalize_scope s.scope) (normalize_scope u.scope))) [
      | inr q ↦ ground (arith, h, q)
      | inl q ↦ elim (Bool-cases (seen u s)) [
        | inl e ↦ (q, inl (e, ground (arith, h, q, e)))
        | inr e ↦ (q, inr (e, ground (arith, h, q, e)))
      ]
    ]

-- An applied update keeps the counts: in each entry the matches are the sum of the places and the
-- first places are those of place 1, the entries are in the order of the bot ids, and the completed
-- matches are as many as the applied match ids.
pub apply_ranking_update-IsRanked :
    (s s' : RankingSnapshot) (u : RankingUpdate)
    → All IsCounted s.entries
    → apply_ranking_update s u ≡ ok s'
    → IsRanked s'
apply_ranking_update-IsRanked s s' u c h = elim ((applied s s' u h).1) [
  | inl (_, e) ↦ subst IsRanked (sym e) (normalize_snapshot-IsRanked s c)
  | inr (_, e) ↦
      subst IsRanked (sym e)
        (count_update-IsRanked (normalize_snapshot s) u (normalize_snapshot-IsRanked s c).counted)
]
