-- ===== src/Service/Claims.antt =====
-- What Claim hands out.
use ai_arena.Prelude.{
  ℕ, ◌+◌, String, Bool, true, false, List, [], ◌∷◌, ◌++◌, none, some, All, Dict, lookup, insert,
  lookup-insert, contains, ok, err, is_blank, ◌≡◌, ◌≢◌, refl, ap, subst, ◌∙◌, arith, eq_iff,
  Option-cases, Bool-cases, inl, inr, ◌⊎◌,
}
use ai_arena.Service.Records.{QueueRecord, queued, leased, same_state}
use ai_arena.Service.Store.{Store, claim, claim_next, no_queued_submission, Outcome}
use ai_arena.Service.Soundness.{IsSound}

pub is_waiting : Dict QueueRecord → String → Bool
is_waiting records id = elim (lookup id records) [
  | none ↦ false
  | some r ↦ same_state r.state queued
]

-- `id` is the first of the order that is waiting; `rest` stands behind it.
pub record IsNext (s : Store) (order : List String) (id : String) (rest : List String)
    : Type 0 where
  pub skipped : List String
  pub split : order ≡ skipped ++ id ∷ rest
  pub stale : All (λ j. is_waiting s.records j ≡ false) skipped
  pub first : is_waiting s.records id ≡ true

-- The record of a run that a worker holds until 30 seconds after `now`, in nanoseconds.
abbrev pub held : String → ℕ → QueueRecord → QueueRecord
held worker now r = record r {
  state = leased;
  lease = some (record { worker_id = worker; deadline = now + 30000000000; last_heartbeat = now });
}

-- The next waiting run is handed out under a lease, and leaves the order with all before it.
pub Handed : String → ℕ → List String → Store → Outcome QueueRecord → Type 0
Handed worker now order s out =
    (id : String) × (rest : List String) × (r : QueueRecord) × IsNext s order id rest
    × (lookup id s.records ≡ some r)
    × (out ≡ (
      ok (held worker now r),
      record s { order = rest; records = insert id (held worker now r) s.records },
    ))

pub Empty : List String → Store → Outcome QueueRecord → Type 0
Empty order s out =
    (out ≡ (err no_queued_submission, record s { order = [] }))
    × All (λ j. is_waiting s.records j ≡ false) order

skip :
    (worker : String) (now : ℕ) (id : String) (ids : List String) (s : Store)
    (before after : Outcome QueueRecord)
    → is_waiting s.records id ≡ false
    → before ≡ after
    → Empty ids s after ⊎ Handed worker now ids s after
    → Empty (id ∷ ids) s before ⊎ Handed worker now (id ∷ ids) s before
unfolding Empty Handed
skip worker now id ids s before after n e (inl (f, a)) = inl (e ∙ f, (n, a))
skip worker now id ids s before after n e (inr (j, rest, r, p, h, f)) = inr (
  j,
  rest,
  r,
  record {
    skipped = id ∷ p.skipped;
    split = ap (λ l. id ∷ l) p.split;
    stale = (n, p.stale);
    first = p.first;
  },
  h,
  e ∙ f,
)

claim_next_cases :
    (worker : String) (now : ℕ) (ids : List String) (s : Store)
    → Empty ids s (claim_next worker now ids s)
      ⊎ Handed worker now ids s (claim_next worker now ids s)
unfolding claim_next is_waiting Empty Handed
claim_next_cases worker now [] s = inl (refl, tt)
claim_next_cases worker now (id ∷ ids) s = elim (Option-cases (lookup id s.records)) [
  | inl h ↦
      skip worker now id ids s _ (claim_next worker now ids s) (ground (arith, h))
        (ground (arith, h)) (claim_next_cases worker now ids s)
  | inr (r, h) ↦ elim (Bool-cases (same_state r.state queued)) [
    | inr q ↦
        skip worker now id ids s _ (claim_next worker now ids s) (ground (arith, h, q))
          (ground (arith, h, q)) (claim_next_cases worker now ids s)
    | inl q ↦ inr (
      id,
      ids,
      r,
      record { skipped = []; split = refl; stale = tt; first = ground (arith, h, q) },
      h,
      ground (arith, h, q),
    )
  ]
]

none_waiting :
    (records : Dict QueueRecord) (id : String) (order : List String)
    → All (λ j. is_waiting records j ≡ false) order
    → contains id order ≡ true
    → is_waiting records id ≡ false
unfolding contains
none_waiting records id [] a c = ground arith
none_waiting records id (j ∷ order) a c =
    ground (arith, eq_iff id j, none_waiting records id order a.1)

pub waiting_record :
    (records : Dict QueueRecord) (id : String)
    → is_waiting records id ≡ true
    → (r : QueueRecord) × (lookup id records ≡ some r) × (r.state ≡ queued)
unfolding is_waiting
waiting_record records id y = elim (Option-cases (lookup id records)) [
  | inl h ↦ ground (arith, h)
  | inr (r, h) ↦ (r, h, ground (arith, h))
]

-- On a sound store, a named worker is handed the first run of the order that is still queued, under
-- a lease of 30 seconds from now that is also stored, and the run leaves the order with everything
-- in front of it. It is told that no submission is queued only when no run of the store is.
pub claim_first :
    (worker : String) (now : ℕ) (s : Store)
    → IsSound s
    → is_blank worker ≡ false
    → (claim worker now s ≡ (err no_queued_submission, record s { order = [] }))
        × ((id : String) → is_waiting s.records id ≡ false)
      ⊎ Handed worker now s.order s (claim worker now s)
unfolding claim Empty
claim_first worker now s p named = elim (claim_next_cases worker now s.order s) [
  | inl (e, a) ↦ inl (ground (arith, e, named), λ id. none id a)
  | inr handed ↦ inr (subst (Handed worker now s.order s) (ground (arith, named)) handed)
]
  where
    none :
        (id : String)
        → All (λ j. is_waiting s.records j ≡ false) s.order
        → is_waiting s.records id ≡ false
    none id a = elim (Bool-cases (is_waiting s.records id)) [
      | inr n ↦ n
      | inl y ↦
          let (r, h, q) = waiting_record s.records id y in
          none_waiting s.records id s.order a (p.waiting id r h q)
    ]

-- What a claim that succeeds has done.
pub claimed :
    (worker : String) (now : ℕ) (s s' : Store) (r : QueueRecord)
    → claim worker now s ≡ (ok r, s')
    → (id : String) × (old : QueueRecord) × (lookup id s.records ≡ some old)
      × (old.state ≡ queued)
      × (r ≡ held worker now old)
      × (s'.records ≡ insert id (held worker now old) s.records)
unfolding claim Handed Empty is_waiting
claimed worker now s s' r h = elim (claim_next_cases worker now s.order s) [
  | inl (e, a) ↦ ground (arith, e)
  | inr (id, rest, old, next, l, e) ↦
      (id, old, l, ground (arith, next.first), ground (arith, e), ground (arith, e))
]

-- Of two claims in a row that both succeed, the second hands out another run.
pub claim_twice :
    (first second : String) (now later : ℕ) (s s' s'' : Store) (r r' : QueueRecord)
    → IsSound s
    → claim first now s ≡ (ok r, s')
    → claim second later s' ≡ (ok r', s'')
    → r.submission.run_id ≢ r'.submission.run_id
claim_twice first second now later s s' s'' r r' p h k =
    let (id, old, l, q, e, written) = claimed first now s s' r h in
    let (id', old', l', q', e', written') = claimed second later s' s'' r' k in
    ground (
      arith,
      e,
      e',
      written,
      q',
      eq_iff id id',
      lookup-insert id id' (held first now old) s.records,
      p.keyed id old l,
      p.keyed id' old',
    )
