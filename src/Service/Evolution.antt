-- ===== src/Service/Evolution.antt =====
-- What one operation of the queue store makes of one record.
use ai_arena.Prelude.{
  ℕ, String, true, List, [], ◌∷◌, ◌++◌, none, some, Dict, lookup, insert, lookup-insert, is_blank,
  ◌≡◌, refl, sym, ◌∙◌, subst, arith, eq_iff, Option-cases, Bool-cases, text_cases, eq_refl, inl,
  inr, ◌⊎◌,
}
use ai_arena.Service.Records.{
  MatchSubmission, QueueRecord, LifecycleState, queued, leased, running, persisting, unknown_state,
  completed, failed, canceled, same_state, validate_transition,
}
use ai_arena.Service.Store.{
  Store, enqueue, claim, claim_next, lease_to, heartbeat, owns, recover_one, requeue,
  is_recoverable_lease, in_flight, update, completion, select, promote, cancel_queued,
  remove_from_order,
}
use ai_arena.Service.Preservation.{lookup-select_each}

-- How one record may change: along an allowed transition, or back to the queue from a lost lease.
-- A completion time that is set stays.
unfoldable pub Evolves : QueueRecord → QueueRecord → Type 0
Evolves r r' =
    ((validate_transition r.state r'.state ≡ none)
      ⊎ (in_flight r.state ≡ true) × (r'.state ≡ queued))
    × ((t : ℕ) → r.completed_at ≡ some t → r'.completed_at ≡ some t)

same_state_refl : (a : LifecycleState) → same_state a a ≡ true
same_state_refl queued = refl
same_state_refl leased = refl
same_state_refl running = refl
same_state_refl persisting = refl
same_state_refl completed = refl
same_state_refl failed = refl
same_state_refl canceled = refl
same_state_refl (unknown_state a) = eq_refl a

Evolves-same :
    (r r' : QueueRecord) → r.state ≡ r'.state → r.completed_at ≡ r'.completed_at → Evolves r r'
unfolding Evolves
Evolves-same r r' e c = (inl (ground (arith, e, same_state_refl r.state)), λ t h. sym c ∙ h)

-- The store after still has the record, evolved.
unfoldable pub Kept : String → QueueRecord → Store → Type 0
Kept j x s = (x' : QueueRecord) × (lookup j s.records ≡ some x') × Evolves x x'

Kept-same : (j : String) (x : QueueRecord) (s : Store) → lookup j s.records ≡ some x → Kept j x s
unfolding Kept
Kept-same j x s e = (x, e, Evolves-same x x refl refl)

-- A record that is written leaves the others as they are.
Kept-insert :
    (id j : String) (old r x : QueueRecord) (all order : List String) (records : Dict QueueRecord)
    → lookup id records ≡ some old
    → Evolves old r
    → lookup j records ≡ some x
    → Kept j x (record { all = all; order = order; records = insert id r records })
unfolding Kept
Kept-insert id j old r x all order records h v e = elim (text_cases id j) [
  | inl (q, same) ↦ (
    r,
    ground (arith, q, lookup-insert id j r records),
    subst (λ y. Evolves y r) (ground (arith, h, e, same)) v,
  )
  | inr (q, other) ↦
      (x, ground (arith, q, lookup-insert id j r records), Evolves-same x x refl refl)
]

Kept-new :
    (id j : String) (r x : QueueRecord) (all order : List String) (records : Dict QueueRecord)
    → lookup id records ≡ none
    → lookup j records ≡ some x
    → Kept j x (record { all = all; order = order; records = insert id r records })
unfolding Kept
Kept-new id j r x all order records h e =
    (x, ground (arith, h, e, eq_iff id j, lookup-insert id j r records), Evolves-same x x refl refl)

module _ (j : String) (x : QueueRecord) (s : Store) (e : lookup j s.records ≡ some x) where
  pub enqueue-Kept : (m : MatchSubmission) → Kept j x (enqueue m s).1
  unfolding enqueue
  enqueue-Kept m = elim (Bool-cases (is_blank m.run_id)) [
    | inl b ↦ rw (b, enqueue) (Kept-same j x s e)
    | inr b ↦ elim (Option-cases (lookup m.run_id s.records)) [
      | inr (r, h) ↦ rw (b, h, enqueue) (Kept-same j x s e)
      | inl h ↦ rw (b, h, enqueue) (Kept-new m.run_id j _ x _ _ s.records h e)
    ]
  ]

  claim_next-Kept :
      (worker : String) (now : ℕ) (ids : List String) → Kept j x (claim_next worker now ids s).1
  unfolding claim_next Evolves
  claim_next-Kept worker now [] = Kept-same j x _ e
  claim_next-Kept worker now (id ∷ rest) = elim (Option-cases (lookup id s.records)) [
    | inl h ↦ rw (h, claim_next) (claim_next-Kept worker now rest)
    | inr (r, h) ↦ elim (Bool-cases (same_state r.state queued)) [
      | inr q ↦ rw (h, q, claim_next) (claim_next-Kept worker now rest)
      | inl q ↦
          rw (h, q, claim_next)
            (Kept-insert id j r (lease_to worker now r) x s.all rest s.records h
              (inl (ground (arith, q)), λ t c. c) e)
    ]
  ]

  pub claim-Kept : (worker : String) (now : ℕ) → Kept j x (claim worker now s).1
  unfolding claim
  claim-Kept worker now = elim (Bool-cases (is_blank worker)) [
    | inl b ↦ rw (b, claim) (Kept-same j x s e)
    | inr b ↦ rw (b, claim) (claim_next-Kept worker now s.order)
  ]

  pub heartbeat-Kept : (run worker : String) (now : ℕ) → Kept j x (heartbeat run worker now s).1
  unfolding heartbeat
  heartbeat-Kept run worker now = elim (Option-cases (lookup run s.records)) [
    | inl h ↦ rw (h, heartbeat) (Kept-same j x s e)
    | inr (r, h) ↦ elim (Bool-cases (owns worker r)) [
      | inr b ↦ rw (h, b, heartbeat) (Kept-same j x s e)
      | inl b ↦
          rw (h, b, heartbeat)
            (Kept-insert run j r _ x s.all s.order s.records h (Evolves-same r _ refl refl) e)
    ]
  ]

  pub recover_one-Kept : (now : ℕ) (id : String) → Kept j x (recover_one now id s).1
  unfolding Evolves recover_one is_recoverable_lease
  recover_one-Kept now id = elim (Option-cases (lookup id s.records)) [
    | inl h ↦ rw (h, recover_one) (Kept-same j x s e)
    | inr (r, h) ↦ elim (Bool-cases (is_recoverable_lease r now)) [
      | inr b ↦ rw (h, b, recover_one) (Kept-same j x s e)
      | inl b ↦
          rw (h, b, recover_one)
            (Kept-insert id j r (requeue r) x s.all (s.order ++ id ∷ []) s.records h
              (inr (ground (arith, b), refl), λ t c. c) e)
    ]
  ]

  pub update-Kept : (next : QueueRecord) (now : ℕ) → Kept j x (update next now s).1
  unfolding Evolves update completion
  update-Kept next now = elim (Option-cases (lookup next.submission.run_id s.records)) [
    | inl h ↦ rw (h, update) (Kept-same j x s e)
    | inr (r, h) ↦ elim (Option-cases (validate_transition r.state next.state)) [
      | inr (_, b) ↦ rw (h, b, update) (Kept-same j x s e)
      | inl b ↦
          rw (h, b, update)
            (Kept-insert next.submission.run_id j r _ x s.all s.order s.records h
              (inl b, λ t c. ground (arith, c)) e)
    ]
  ]

  pub promote-Kept : (run : String) → Kept j x (promote run s).1
  unfolding Kept promote select
  promote-Kept run = elim (Option-cases (lookup run s.records)) [
    | inl h ↦ rw (h, promote) (Kept-same j x s e)
    | inr (t, h) ↦ elim (Bool-cases (same_state t.state completed)) [
      | inr b ↦ rw (h, b, promote) (Kept-same j x s e)
      | inl b ↦
          rw (h, b, promote)
            ((
              select t.submission.match_id run j x,
              ground (arith, e, lookup-select_each t.submission.match_id run j s.records),
              Evolves-same x (select t.submission.match_id run j x) (ground arith) (ground arith),
            ))
    ]
  ]

  pub cancel_queued-Kept : (run : String) → Kept j x (cancel_queued run s).1
  unfolding Evolves cancel_queued
  cancel_queued-Kept run = elim (Option-cases (lookup run s.records)) [
    | inl h ↦ rw (h, cancel_queued) (Kept-same j x s e)
    | inr (r, h) ↦ elim (Bool-cases (same_state r.state queued)) [
      | inr b ↦ rw (h, b, cancel_queued) (Kept-same j x s e)
      | inl b ↦ elim (Option-cases (validate_transition r.state canceled)) [
        | inr (_, v) ↦ rw (h, b, v, cancel_queued) (Kept-same j x s e)
        | inl v ↦
            rw (h, b, v, cancel_queued)
              (Kept-insert run j r _ x s.all (remove_from_order run s.order) s.records h
                (inl v, λ t c. c) e)
      ]
    ]
  ]
