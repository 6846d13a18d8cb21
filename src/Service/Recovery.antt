-- ===== src/Service/Recovery.antt =====
-- What RecoverExpired puts back.
use ai_arena.Prelude.{
  ℕ, String, Bool, false, not, ◌&&◌, ◌||◌, ltb, List, [], ◌∷◌, ◌++◌, Option, none, some, ◌is◌,
  if◌then◌else◌, Dict, lookup, lookup-insert, contains, Distinct, length, length-append, ◌≡◌, refl,
  sym, ◌∙◌, arith, eq_iff, Option-cases, inl, inr,
}
use mathlib.Core.List.{append-nil, append_assoc}
use ai_arena.Service.Records.{QueueRecord, queued, leased, running, persisting, same_state}
use ai_arena.Service.Store.{Store, recover_one, recover_expired, is_recoverable_lease}

-- A run that is leased, running or persisting under a lease whose deadline is not after `now`.
abbrev pub is_expired : ℕ → QueueRecord → Bool
is_expired now r = elim r.lease [
  | none ↦ false
  | some l ↦
      not (ltb now l.deadline)
      && (same_state r.state leased
          || (same_state r.state running || same_state r.state persisting))
]

-- The record of a run after the recovery: an expired one is queued and has no lease.
pub recovered : ℕ → Option QueueRecord → Option QueueRecord
recovered now none = none
recovered now (some r) =
    some (if is_expired now r then record r { state = queued; lease = none } else r)

pub is_recoverable : ℕ → Dict QueueRecord → String → Bool
is_recoverable now records id = elim (lookup id records) [
  | none ↦ false
  | some r ↦ is_expired now r
]

is_recoverable_lease_lem :
    (now : ℕ) (r : QueueRecord) → is_recoverable_lease r now ≡ is_expired now r
unfolding is_recoverable_lease
is_recoverable_lease_lem now r = ground arith

pub recoverable : ℕ → Dict QueueRecord → List String → List String
recoverable now records [] = []
recoverable now records (id ∷ ids) =
    if is_recoverable now records id
    then id ∷ recoverable now records ids
    else recoverable now records ids

lookup-recover_one :
    (now : ℕ) (id j : String) (s : Store)
    → lookup j (recover_one now id s).1.records
      ≡ (if id is j then recovered now (lookup j s.records) else lookup j s.records)
unfolding recover_one recovered
lookup-recover_one now id j s = elim (Option-cases (lookup id s.records)) [
  | inl h ↦ ground (arith, h, eq_iff id j)
  | inr (r, h) ↦ ground (
    arith,
    h,
    eq_iff id j,
    lookup-insert id j (record r { state = queued; lease = none }) s.records,
    is_recoverable_lease_lem now r,
  )
]

order-recover_one :
    (now : ℕ) (id : String) (s : Store)
    → ((recover_one now id s).1.order ≡ s.order ++ recoverable now s.records (id ∷ []))
      × ((recover_one now id s).1.all ≡ s.all)
      × ((recover_one now id s).0 ≡ length (recoverable now s.records (id ∷ [])))
unfolding recover_one recoverable is_recoverable
order-recover_one now id s = elim (Option-cases (lookup id s.records)) [
  | inl h ↦ ground (arith, h, append-nil s.order)
  | inr (r, h) ↦ ground (arith, h, append-nil s.order, is_recoverable_lease_lem now r)
]

-- A run that is not visited decides nothing.
recoverable-recover_one :
    (now : ℕ) (id : String) (ids : List String) (s : Store)
    → contains id ids ≡ false
    → recoverable now (recover_one now id s).1.records ids ≡ recoverable now s.records ids
unfolding recoverable is_recoverable contains
recoverable-recover_one now id [] s n = refl
recoverable-recover_one now id (j ∷ ids) s n =
    ground (arith, eq_iff id j, lookup-recover_one now id j s, recoverable-recover_one now id ids s)

recoverable_cons :
    (now : ℕ) (id : String) (ids : List String) (records : Dict QueueRecord)
    → recoverable now records (id ∷ ids)
      ≡ recoverable now records (id ∷ []) ++ recoverable now records ids
unfolding recoverable
recoverable_cons now id ids records = ground arith

-- In whatever order the range visits distinct runs: a visited run is back in the queue without its
-- lease exactly when it is leased, running or persisting and the deadline of its lease is not after that time, every other record is unchanged, the
-- recovered runs are put at the end of the order, and their number is returned.
pub recover_expired_lem :
    (now : ℕ) (visit : List String) (s : Store)
    → Distinct visit
    → ((j : String)
        → lookup j (recover_expired now visit s).1.records
          ≡ (if contains j visit then recovered now (lookup j s.records) else lookup j s.records))
      × ((recover_expired now visit s).1.order ≡ s.order ++ recoverable now s.records visit)
      × ((recover_expired now visit s).1.all ≡ s.all)
      × ((recover_expired now visit s).0 ≡ length (recoverable now s.records visit))
unfolding recover_expired contains recoverable
recover_expired_lem now [] s d = (λ j. refl, sym (append-nil s.order), refl, refl)
recover_expired_lem now (id ∷ visit) s d =
    let s' = (recover_one now id s).1 in
    let (records, order, all, count) = recover_expired_lem now visit s' d.1 in
    let (order', all', count') = order-recover_one now id s in
    let later = recoverable-recover_one now id visit s d.0 in
    let split = recoverable_cons now id visit s.records in
    (
      λ j. ground (arith, records j, lookup-recover_one now id j s, eq_iff j id, eq_iff id j, d.0),
      ground (
        arith,
        order,
        order',
        later,
        split,
        append_assoc s.order (recoverable now s.records (id ∷ []))
            (recoverable now s.records visit),
      ),
      all ∙ all',
      ground (
        arith,
        count,
        count',
        later,
        split,
        length-append (recoverable now s.records (id ∷ [])) (recoverable now s.records visit),
      ),
    )
