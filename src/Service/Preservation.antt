-- ===== src/Service/Preservation.antt =====
-- The operations on records that are in the queue store keep its invariant.
use ai_arena.Prelude.{
  ℕ, String, true, List, [], ◌∷◌, ◌++◌, none, some, Dict, lookup, contains, contains-append, ◌≡◌,
  ◌≢◌, refl, arith, eq_iff, Option-cases, Bool-cases, inl, inr,
}
use ai_arena.Service.Records.{
  QueueRecord, queued, completed, canceled, same_state, validate_transition,
}
use ai_arena.Service.Store.{
  Store, heartbeat, recover_one, recover_expired, requeue, update, select, select_each, promote,
  remove_from_order, cancel_queued, owns, is_recoverable_lease,
}
use ai_arena.Service.Soundness.{IsSound, put-IsSound}

pub heartbeat-IsSound :
    (run worker : String) (now : ℕ) (s : Store) → IsSound s → IsSound (heartbeat run worker now s).1
unfolding heartbeat
heartbeat-IsSound run worker now s p = elim (Option-cases (lookup run s.records)) [
  | inl h ↦ rw (h, heartbeat) p
  | inr (r, h) ↦ elim (Bool-cases (owns worker r)) [
    | inr e ↦ rw (h, e, heartbeat) p
    | inl e ↦
        rw (h, e, heartbeat)
          (put-IsSound s run r _ s.order p h (p.keyed run r h) (λ q. p.waiting run r h q)
            (λ j n c. c))
  ]
]

recover_one-IsSound :
    (now : ℕ) (id : String) (s : Store) → IsSound s → IsSound (recover_one now id s).1
unfolding recover_one contains
recover_one-IsSound now id s p = elim (Option-cases (lookup id s.records)) [
  | inl h ↦ rw (h, recover_one) p
  | inr (r, h) ↦ elim (Bool-cases (is_recoverable_lease r now)) [
    | inr e ↦ rw (h, e, recover_one) p
    | inl e ↦
        rw (h, e, recover_one)
          (put-IsSound s id r (requeue r) (s.order ++ id ∷ []) p h (p.keyed id r h)
            (λ q. ground (arith, contains-append id s.order (id ∷ []), eq_iff id id))
            (λ j n c. ground (arith, contains-append j s.order (id ∷ []))))
  ]
]

pub recover_expired-IsSound :
    (now : ℕ) (visit : List String) (s : Store)
    → IsSound s
    → IsSound (recover_expired now visit s).1
unfolding recover_expired
recover_expired-IsSound now [] s p = p
recover_expired-IsSound now (id ∷ visit) s p =
    recover_expired-IsSound now visit (recover_one now id s).1 (recover_one-IsSound now id s p)

pub update-IsSound :
    (next : QueueRecord) (now : ℕ) (s : Store) → IsSound s → IsSound (update next now s).1
unfolding update
update-IsSound next now s p = elim (Option-cases (lookup next.submission.run_id s.records)) [
  | inl h ↦ rw (h, update) p
  | inr (r, h) ↦ elim (Option-cases (validate_transition r.state next.state)) [
    | inr (x, e) ↦ rw (h, e, update) p
    | inl e ↦
        rw (h, e, update)
          (put-IsSound s next.submission.run_id r _ s.order p h refl
            (λ q. ground (arith, e, q, p.waiting next.submission.run_id r h)) (λ j n c. c))
  ]
]

pub lookup-select_each :
    (match_id run j : String) (d : Dict QueueRecord)
    → lookup j (select_each match_id run d)
      ≡ elim (lookup j d) [ none ↦ none | some r ↦ some (select match_id run j r) ]
unfolding select_each lookup
lookup-select_each match_id run j [] = refl
lookup-select_each match_id run j ((i, r) ∷ d) =
    ground (arith, eq_iff i j, lookup-select_each match_id run j d)

select_keeps :
    (match_id run id : String) (r : QueueRecord)
    → ((select match_id run id r).submission.run_id ≡ r.submission.run_id)
      × ((select match_id run id r).state ≡ r.state)
unfolding select
select_keeps match_id run id r = ground arith

pub promote-IsSound : (run : String) (s : Store) → IsSound s → IsSound (promote run s).1
unfolding promote
promote-IsSound run s p = elim (Option-cases (lookup run s.records)) [
  | inl h ↦ rw (h, promote) p
  | inr (t, h) ↦ elim (Bool-cases (same_state t.state completed)) [
    | inr e ↦ rw (h, e, promote) p
    | inl e ↦ rw (h, e, promote) (selected t.submission.match_id)
  ]
]
  where
    selected :
        (match_id : String) → IsSound (record s { records = select_each match_id run s.records })
    selected match_id = record {
      keyed = λ id r e. elim (Option-cases (lookup id s.records)) [
        | inl h ↦ ground (arith, lookup-select_each match_id run id s.records)
        | inr (x, h) ↦ ground (
          arith,
          lookup-select_each match_id run id s.records,
          select_keeps match_id run id x,
          p.keyed id x h,
        )
      ];
      listed = λ id. ground (arith, lookup-select_each match_id run id s.records, p.listed id);
      distinct = p.distinct;
      waiting = λ id r e q. elim (Option-cases (lookup id s.records)) [
        | inl h ↦ ground (arith, lookup-select_each match_id run id s.records)
        | inr (x, h) ↦ ground (
          arith,
          lookup-select_each match_id run id s.records,
          select_keeps match_id run id x,
          p.waiting id x h,
        )
      ];
    }

contains-remove_from_order :
    (run j : String) (ids : List String)
    → j ≢ run
    → contains j ids ≡ true
    → contains j (remove_from_order run ids) ≡ true
unfolding contains remove_from_order
contains-remove_from_order run j [] n c = c
contains-remove_from_order run j (id ∷ ids) n c =
    ground (arith, eq_iff id run, eq_iff j id, contains-remove_from_order run j ids n)

pub cancel_queued-IsSound : (run : String) (s : Store) → IsSound s → IsSound (cancel_queued run s).1
unfolding cancel_queued
cancel_queued-IsSound run s p = elim (Option-cases (lookup run s.records)) [
  | inl h ↦ rw (h, cancel_queued) p
  | inr (r, h) ↦ elim (Bool-cases (same_state r.state queued)) [
    | inr e ↦ rw (h, e, cancel_queued) p
    | inl e ↦ elim (Option-cases (validate_transition r.state canceled)) [
      | inr (x, v) ↦ rw (h, e, v, cancel_queued) p
      | inl v ↦
          rw (h, e, v, cancel_queued)
            (put-IsSound s run r _ (remove_from_order run s.order) p h (p.keyed run r h)
              (λ q. ground (arith, q)) (λ j n c. contains-remove_from_order run j s.order n c))
    ]
  ]
]
