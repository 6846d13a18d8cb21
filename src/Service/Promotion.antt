-- ===== src/Service/Promotion.antt =====
-- What Promote selects.
use ai_arena.Prelude.{
  String, true, some, ◌is◌, if◌then◌else◌, lookup, ok, ◌≡◌, arith, eq_iff, Option-cases, inl, inr,
}
use ai_arena.Service.Records.{QueueRecord, completed}
use ai_arena.Service.Store.{Store, promote, select, select_each}
use ai_arena.Service.Preservation.{lookup-select_each}

promoted :
    (run : String) (s s' : Store) (r : QueueRecord)
    → promote run s ≡ (ok r, s')
    → (t : QueueRecord) × (lookup run s.records ≡ some t)
      × (t.state ≡ completed)
      × (r ≡ select t.submission.match_id run run t)
      × (s'.records ≡ select_each t.submission.match_id run s.records)
      × (s'.order ≡ s.order)
unfolding promote
promoted run s s' r h = elim (Option-cases (lookup run s.records)) [
  | inl e ↦ ground (arith, e)
  | inr (t, e) ↦ (t, e, ground (arith, e), ground (arith, e), ground (arith, e), ground (arith, e))
]

-- A promotion that succeeds is of a completed run, and leaves it the one official run of its match:
-- every other record of the match is not official, the records of other matches are unchanged, and
-- so is all but the mark of the records of this one.
pub promote_selects :
    (run : String) (s s' : Store) (r : QueueRecord)
    → promote run s ≡ (ok r, s')
    → (r.state ≡ completed)
      × (r.submission.official ≡ true)
      × (lookup run s'.records ≡ some r)
      × ((j : String) (x : QueueRecord)
          → lookup j s.records ≡ some x
          → lookup j s'.records
            ≡ some (
                if x.submission.match_id is r.submission.match_id
                then record x { submission = record x.submission { official = j is run } }
                else x))
unfolding select
promote_selects run s s' r h =
    let (t, e, c, made, written, _) = promoted run s s' r h in
    (
      ground (arith, made, c),
      ground (arith, made, eq_iff run run, eq_iff t.submission.match_id t.submission.match_id),
      ground (arith, made, written, e, lookup-select_each t.submission.match_id run run s.records),
      λ j x l.
          ground
            (arith, made, written, l, lookup-select_each t.submission.match_id run j s.records),
    )
