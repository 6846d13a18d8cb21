-- ===== src/Service/RankingOnce.antt =====
-- An update counts once.
use ai_arena.Prelude.{
  true, false, [], ◌∷◌, ◌==◌, contains, contains-append, length, trim_space_idem, ok, ◌≡◌, refl, ap,
  sym, ◌∙◌, subst, arith, eq_iff, inl, inr,
}
use ai_arena.Service.Ranking.{
  RankingScope, RankingSnapshot, RankingUpdate, normalize_scope, sorted_entries, normalize_snapshot,
  same_scope, index_entries, place_all, values, count_update, apply_ranking_update,
}
use ai_arena.Service.RankingOrder.{sorted_entries_idem}
use ai_arena.Service.RankingCounts.{seen, applied}

normalize_scope_idem : (s : RankingScope) → normalize_scope (normalize_scope s) ≡ normalize_scope s
unfolding normalize_scope
normalize_scope_idem s = ground (
  arith,
  trim_space_idem s.game_id,
  trim_space_idem s.game_version,
  trim_space_idem s.ruleset_version,
)

-- A snapshot that is normalized.
record IsNormal (s : RankingSnapshot) : Type 0 where
  scoped : normalize_scope s.scope ≡ s.scope
  versioned : (s.version == 0) ≡ false
  matched : length s.applied_match_ids ≡ s.completed_matches
  ordered : sorted_entries s.entries ≡ s.entries

normalize_snapshot-IsNormal : (s : RankingSnapshot) → IsNormal (normalize_snapshot s)
unfolding normalize_snapshot
normalize_snapshot-IsNormal s = record {
  scoped = normalize_scope_idem s.scope;
  versioned = ground arith;
  matched = refl;
  ordered = sorted_entries_idem s.entries;
}

count_update-IsNormal :
    (s : RankingSnapshot) (u : RankingUpdate) → IsNormal s → IsNormal (count_update s u)
unfolding count_update
count_update-IsNormal s u n = record {
  scoped = n.scoped;
  versioned = n.versioned;
  matched = refl;
  ordered = sorted_entries_idem (values (place_all u (index_entries [] s.entries) u.placements));
}

normalize_snapshot_of_normal : (s : RankingSnapshot) → IsNormal s → normalize_snapshot s ≡ s
unfolding normalize_snapshot
normalize_snapshot_of_normal s n = ground (arith, n.scoped, n.versioned, n.matched, n.ordered)

apply_seen :
    (s : RankingSnapshot) (u : RankingUpdate)
    → IsNormal s
    → same_scope s.scope (normalize_scope u.scope) ≡ true
    → seen u s ≡ true
    → apply_ranking_update s u ≡ ok s
unfolding apply_ranking_update
apply_seen s u n q e = rw (normalize_snapshot_of_normal s n, q, e) refl

seen-count_update : (s : RankingSnapshot) (u : RankingUpdate) → seen u (count_update s u) ≡ true
unfolding count_update contains
seen-count_update s u =
    ground
      (arith, eq_iff u.run_id u.run_id, contains-append u.run_id s.applied_run_ids (u.run_id ∷ []))

scope-count_update : (s : RankingSnapshot) (u : RankingUpdate) → (count_update s u).scope ≡ s.scope
unfolding count_update
scope-count_update s u = refl

seen-normalize_snapshot :
    (s : RankingSnapshot) (u : RankingUpdate) → seen u (normalize_snapshot s) ≡ seen u s
unfolding normalize_snapshot
seen-normalize_snapshot s u = refl

-- An update that was applied to a snapshot is not counted again: applied to what came out, it
-- succeeds and leaves the snapshot as it is.
pub apply_ranking_update_once :
    (s s' : RankingSnapshot) (u : RankingUpdate)
    → apply_ranking_update s u ≡ ok s'
    → apply_ranking_update s' u ≡ ok s'
apply_ranking_update_once s s' u h =
    let (scoped, cases) = applied s s' u h in
    let n = normalize_snapshot s in
    let normal = normalize_snapshot-IsNormal s in
    elim cases [
      | inl (known, e) ↦
          subst (λ x. apply_ranking_update x u ≡ ok x) (sym e)
            (apply_seen n u normal scoped (seen-normalize_snapshot s u ∙ known))
      | inr (_, e) ↦
          subst (λ x. apply_ranking_update x u ≡ ok x) (sym e)
            (apply_seen (count_update n u) u (count_update-IsNormal n u normal)
              (ap (λ c. same_scope c (normalize_scope u.scope)) (scope-count_update n u) ∙ scoped)
              (seen-count_update n u))
    ]
