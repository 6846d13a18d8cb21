-- ===== src/Service/Quiet.antt =====
-- Operations of other callers that leave a run to its worker.
use ai_arena.Prelude.{
  ℕ, String, false, List, [], ◌∷◌, some, All, lookup, insert, lookup-insert, contains, is_blank,
  ◌≡◌, ◌≢◌, arith, eq_iff, Option-cases, Bool-cases, text_cases, inl, inr,
}
use ai_arena.Service.Records.{
  MatchSubmission, QueueRecord, LifecycleState, queued, completed, canceled, same_state,
  validate_transition,
}
use ai_arena.Service.Store.{
  Store, enqueue, claim, claim_next, lease_to, heartbeat, owns, recover_one, recover_expired,
  update, select, promote, cancel_queued, is_recoverable_lease, remove_from_order,
}
use ai_arena.Service.Preservation.{lookup-select_each}
use ai_arena.Service.Lifecycle.{
  Operation, enqueuing, claiming, beating, recovering, updating, promoting, canceling, perform,
  perform_all,
}

-- The operation neither writes the record of the run nor looks for its lease.
abbrev pub IsQuiet : String → Operation → Type 0
IsQuiet run (recovering now visit) = contains run visit ≡ false
IsQuiet run (updating next now) = next.submission.run_id ≢ run
IsQuiet run _ = Unit {0}

-- The store has the run, in this state.
abbrev pub InState : String → LifecycleState → Store → Type 0
InState run st s = (r : QueueRecord) × (lookup run s.records ≡ some r) × (r.state ≡ st)

module _ (run : String) (st : LifecycleState) where
  -- A record is written that is not the run's, or is in the state.
  InState-insert :
      (id : String) (x : QueueRecord) (all order : List String) (s : Store)
      → (id ≡ run → x.state ≡ st)
      → InState run st s
      → InState run st (record { all = all; order = order; records = insert id x s.records })
  InState-insert id x all order s f (r, h, e) = elim (text_cases id run) [
    | inl (q, same) ↦ (x, ground (arith, q, lookup-insert id run x s.records), f same)
    | inr (q, other) ↦ (r, ground (arith, q, h, lookup-insert id run x s.records), e)
  ]

  enqueue-InState :
      (m : MatchSubmission) (s : Store) → InState run st s → InState run st (enqueue m s).1
  unfolding enqueue
  enqueue-InState m s p = elim (Bool-cases (is_blank m.run_id)) [
    | inl b ↦ rw (b, enqueue) p
    | inr b ↦ elim (Option-cases (lookup m.run_id s.records)) [
      | inr (x, f) ↦ rw (b, f, enqueue) p
      | inl f ↦
          rw (b, f, enqueue)
            (InState-insert m.run_id _ s.all s.order s (λ same. ground (arith, f, p.1, same)) p)
    ]
  ]

  claim_next-InState :
      (worker : String) (now : ℕ) (ids : List String) (s : Store)
      → same_state st queued ≡ false
      → InState run st s
      → InState run st (claim_next worker now ids s).1
  unfolding claim_next
  claim_next-InState worker now [] s busy p = p
  claim_next-InState worker now (id ∷ ids) s busy p = elim (Option-cases (lookup id s.records)) [
    | inl f ↦ rw (f, claim_next) (claim_next-InState worker now ids s busy p)
    | inr (x, f) ↦ elim (Bool-cases (same_state x.state queued)) [
      | inr q ↦ rw (f, q, claim_next) (claim_next-InState worker now ids s busy p)
      | inl q ↦
          rw (f, q, claim_next)
            (InState-insert id (lease_to worker now x) s.all ids s
              (λ same. ground (arith, f, q, p.1, p.2, busy, same)) p)
    ]
  ]

  claim-InState :
      (worker : String) (now : ℕ) (s : Store)
      → same_state st queued ≡ false
      → InState run st s
      → InState run st (claim worker now s).1
  unfolding claim
  claim-InState worker now s busy p = elim (Bool-cases (is_blank worker)) [
    | inl b ↦ rw (b, claim) p
    | inr b ↦ rw (b, claim) (claim_next-InState worker now s.order s busy p)
  ]

  heartbeat-InState :
      (id worker : String) (now : ℕ) (s : Store)
      → InState run st s
      → InState run st (heartbeat id worker now s).1
  unfolding heartbeat
  heartbeat-InState id worker now s p = elim (Option-cases (lookup id s.records)) [
    | inl f ↦ rw (f, heartbeat) p
    | inr (x, f) ↦ elim (Bool-cases (owns worker x)) [
      | inr b ↦ rw (f, b, heartbeat) p
      | inl b ↦
          rw (f, b, heartbeat)
            (InState-insert id _ s.all s.order s (λ same. ground (arith, f, p.1, p.2, same)) p)
    ]
  ]

  recover_one-InState :
      (now : ℕ) (id : String) (s : Store)
      → id ≢ run
      → InState run st s
      → InState run st (recover_one now id s).1
  unfolding recover_one
  recover_one-InState now id s other p = elim (Option-cases (lookup id s.records)) [
    | inl f ↦ rw (f, recover_one) p
    | inr (x, f) ↦ elim (Bool-cases (is_recoverable_lease x now)) [
      | inr b ↦ rw (f, b, recover_one) p
      | inl b ↦
          rw (f, b, recover_one)
            (InState-insert id _ s.all s.order s (λ same. absurd (other same)) p)
    ]
  ]

  recover_expired-InState :
      (now : ℕ) (visit : List String) (s : Store)
      → contains run visit ≡ false
      → InState run st s
      → InState run st (recover_expired now visit s).1
  unfolding recover_expired contains
  recover_expired-InState now [] s n p = p
  recover_expired-InState now (id ∷ visit) s n p =
      recover_expired-InState now visit (recover_one now id s).1 (ground arith)
        (recover_one-InState now id s (λ same. ground (arith, n, same, eq_iff run id)) p)

  update-InState :
      (next : QueueRecord) (now : ℕ) (s : Store)
      → next.submission.run_id ≢ run
      → InState run st s
      → InState run st (update next now s).1
  unfolding update
  update-InState next now s other p =
      elim (Option-cases (lookup next.submission.run_id s.records)) [
        | inl f ↦ rw (f, update) p
        | inr (x, f) ↦ elim (Option-cases (validate_transition x.state next.state)) [
          | inr (_, b) ↦ rw (f, b, update) p
          | inl b ↦
              rw (f, b, update)
                (InState-insert next.submission.run_id _ s.all s.order s
                  (λ same. absurd (other same)) p)
        ]
      ]

  promote-InState : (id : String) (s : Store) → InState run st s → InState run st (promote id s).1
  unfolding promote select
  promote-InState id s p = elim (Option-cases (lookup id s.records)) [
    | inl f ↦ rw (f, promote) p
    | inr (t, f) ↦ elim (Bool-cases (same_state t.state completed)) [
      | inr b ↦ rw (f, b, promote) p
      | inl b ↦
          rw (f, b, promote)
            ((
              select t.submission.match_id id run p.0,
              ground (arith, p.1, lookup-select_each t.submission.match_id id run s.records),
              ground (arith, p.2),
            ))
    ]
  ]

  cancel_queued-InState :
      (id : String) (s : Store)
      → same_state st queued ≡ false
      → InState run st s
      → InState run st (cancel_queued id s).1
  unfolding cancel_queued
  cancel_queued-InState id s busy p = elim (Option-cases (lookup id s.records)) [
    | inl f ↦ rw (f, cancel_queued) p
    | inr (x, f) ↦ elim (Bool-cases (same_state x.state queued)) [
      | inr b ↦ rw (f, b, cancel_queued) p
      | inl b ↦ elim (Option-cases (validate_transition x.state canceled)) [
        | inr (_, v) ↦ rw (f, b, v, cancel_queued) p
        | inl v ↦
            rw (f, b, v, cancel_queued)
              (InState-insert id _ s.all (remove_from_order id s.order) s
                (λ same. ground (arith, f, b, p.1, p.2, busy, same)) p)
      ]
    ]
  ]

  perform-InState :
      (o : Operation) (s : Store)
      → same_state st queued ≡ false
      → IsQuiet run o
      → InState run st s
      → InState run st (perform o s)
  perform-InState (enqueuing m) s busy q p = enqueue-InState m s p
  perform-InState (claiming worker now) s busy q p = claim-InState worker now s busy p
  perform-InState (beating id worker now) s busy q p = heartbeat-InState id worker now s p
  perform-InState (recovering now visit) s busy q p = recover_expired-InState now visit s q p
  perform-InState (updating next now) s busy q p = update-InState next now s q p
  perform-InState (promoting id) s busy q p = promote-InState id s p
  perform-InState (canceling id) s busy q p = cancel_queued-InState id s busy p

  -- A run that is not queued stays in its state through quiet operations.
  pub perform_all-InState :
      (os : List Operation) (s : Store)
      → same_state st queued ≡ false
      → All (IsQuiet run) os
      → InState run st s
      → InState run st (perform_all os s)
  perform_all-InState [] s busy q p = p
  perform_all-InState (o ∷ os) s busy (q, qs) p =
      perform_all-InState os (perform o s) busy qs (perform-InState o s busy q p)
