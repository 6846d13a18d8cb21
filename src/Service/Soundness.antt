-- ===== src/Service/Soundness.antt =====
-- The invariant of the queue store, and that new entries and claims keep it.
use ai_arena.Prelude.{
  ℕ, String, Bool, true, false, List, [], ◌∷◌, ◌++◌, Option, none, some, lookup, insert,
  lookup-insert, contains, contains-append, Distinct, Distinct-append, ◌≡◌, ◌≢◌, refl, ap, ◌∙◌,
  arith, eq_iff, Option-cases, Bool-cases, is_blank, inl, inr,
}
use ai_arena.Service.Records.{MatchSubmission, QueueRecord, queued, same_state}
use ai_arena.Service.Store.{Store, new, enqueue, claim, claim_next, lease_to}

abbrev pub is_some {ℓ} : {A : Type ℓ} → Option A → Bool
is_some none = false
is_some (some _) = true

-- Records stand under their run id, the list of all runs names each record once, and whatever is
-- queued is in the order, so that a claim can reach it.
pub record IsSound (s : Store) : Type 0 where
  pub keyed :
      (id : String) (r : QueueRecord) → lookup id s.records ≡ some r → r.submission.run_id ≡ id
  pub listed : (id : String) → contains id s.all ≡ is_some (lookup id s.records)
  pub distinct : Distinct s.all
  pub waiting :
      (id : String) (r : QueueRecord)
      → lookup id s.records ≡ some r
      → r.state ≡ queued
      → contains id s.order ≡ true

pub new-IsSound : IsSound new
unfolding lookup contains
new-IsSound = record {
  keyed = λ id r h. ground arith;
  listed = λ id. refl;
  distinct = tt;
  waiting = λ id r h q. ground arith;
}

-- A record that is written over an old one.
pub put-IsSound :
    (s : Store) (id : String) (old r : QueueRecord) (order : List String)
    → IsSound s
    → lookup id s.records ≡ some old
    → r.submission.run_id ≡ id
    → (r.state ≡ queued → contains id order ≡ true)
    → ((j : String) → j ≢ id → contains j s.order ≡ true → contains j order ≡ true)
    → IsSound (record s { order = order; records = insert id r s.records })
put-IsSound s id old r order p h k q f = record {
  keyed = λ j x e. ground (arith, eq_iff id j, lookup-insert id j r s.records, p.keyed j x);
  listed = λ j. ground (arith, eq_iff id j, lookup-insert id j r s.records, p.listed j);
  distinct = p.distinct;
  waiting =
      λ j x e n. ground (arith, eq_iff id j, lookup-insert id j r s.records, p.waiting j x, f j);
}

-- A record under a new run id, at the end of both lists.
push-IsSound :
    (s : Store) (id : String) (r : QueueRecord)
    → IsSound s
    → lookup id s.records ≡ none
    → r.submission.run_id ≡ id
    → IsSound (record {
      all = s.all ++ id ∷ [];
      order = s.order ++ id ∷ [];
      records = insert id r s.records;
    })
unfolding contains
push-IsSound s id r p h k = record {
  keyed = λ j x e. ground (arith, eq_iff id j, lookup-insert id j r s.records, p.keyed j x);
  listed = λ j. ground (
    arith,
    eq_iff id j,
    eq_iff j id,
    lookup-insert id j r s.records,
    p.listed j,
    contains-append j s.all (id ∷ []),
  );
  distinct = Distinct-append id s.all (p.listed id ∙ ap is_some h) p.distinct;
  waiting = λ j x e n. ground (
    arith,
    eq_iff id j,
    eq_iff j id,
    lookup-insert id j r s.records,
    p.waiting j x,
    contains-append j s.order (id ∷ []),
  );
}

pub enqueue-IsSound :
    (submission : MatchSubmission) (s : Store) → IsSound s → IsSound (enqueue submission s).1
unfolding enqueue
enqueue-IsSound m s p = elim (Bool-cases (is_blank m.run_id)) [
  | inl e ↦ rw e p
  | inr e ↦ elim (Option-cases (lookup m.run_id s.records)) [
    | inr (r, h) ↦ rw (e, h) p
    | inl h ↦ rw (e, h) (push-IsSound s m.run_id _ p h refl)
  ]
]

-- The head of the order is dropped when its record is not queued.
skip-IsSound :
    (id : String) (rest : List String) (s : Store)
    → ((r : QueueRecord) → lookup id s.records ≡ some r → same_state r.state queued ≡ false)
    → IsSound (record s { order = id ∷ rest })
    → IsSound (record s { order = rest })
unfolding contains
skip-IsSound id rest s f p = record {
  keyed = p.keyed;
  listed = p.listed;
  distinct = p.distinct;
  waiting = λ j x e n. ground (arith, eq_iff j id, p.waiting j x, f x);
}

claim_next-IsSound :
    (worker : String) (now : ℕ) (ids : List String) (s : Store)
    → IsSound (record s { order = ids })
    → IsSound (claim_next worker now ids s).1
unfolding claim_next contains
claim_next-IsSound worker now [] s p = p
claim_next-IsSound worker now (id ∷ rest) s p = elim (Option-cases (lookup id s.records)) [
  | inl h ↦
      rw (h, claim_next)
        (claim_next-IsSound worker now rest s
          (skip-IsSound id rest s (λ r e. ground (arith, h, e)) p))
  | inr (r, h) ↦ elim (Bool-cases (same_state r.state queued)) [
    | inl q ↦
        rw (h, q, claim_next)
          (put-IsSound (record s { order = id ∷ rest }) id r (lease_to worker now r) rest p h
            (p.keyed id r h) (λ e. ground (arith, e)) (λ j n c. ground (arith, eq_iff j id)))
    | inr q ↦
        rw (h, q, claim_next)
          (claim_next-IsSound worker now rest s
            (skip-IsSound id rest s (λ x e. ground (arith, h, e, q)) p))
  ]
]

pub claim-IsSound :
    (worker : String) (now : ℕ) (s : Store) → IsSound s → IsSound (claim worker now s).1
unfolding claim
claim-IsSound worker now s p = elim (Bool-cases (is_blank worker)) [
  | inl e ↦ rw e p
  | inr e ↦ rw e (claim_next-IsSound worker now s.order s p)
]
