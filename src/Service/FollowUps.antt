-- ===== src/Service/FollowUps.antt =====
-- What a retry and a rerun append.
use ai_arena.Prelude.{
  String, true, false, [], ◌∷◌, ◌++◌, Option, none, some, trim_space, is_blank, lookup, insert,
  lookup-insert, ok, ◌≡◌, ◌≢◌, sym, subst, arith, eq_iff, Option-cases, Result-cases, Bool-cases,
  inl, inr, ◌⊎◌,
}
use ai_arena.Prelude.Int.{ℤ, pos, is_positive}
use ai_arena.Service.Records.{
  MatchSubmission, QueueRecord, LifecycleState, RunKind, retry, rerun, queued, same_state,
}
use ai_arena.Service.Store.{Store, enqueue, get}
use ai_arena.Service.Submissions.{
  IsAdmissible, IsFollowing, validate_submission, validate_submission_lem,
}
use ai_arena.Service.Commands.{
  CommandError, max_int, increment, follow_up, submit, submit_follow_up,
}

enqueued :
    (m : MatchSubmission) (s s' : Store) (r : QueueRecord)
    → enqueue m s ≡ (ok r, s')
    → (lookup m.run_id s.records ≡ none)
      × (r ≡ record {
        submission = m;
        state = queued;
        completed_at = none;
        lease = none;
        terminal = none;
      })
      × (s' ≡ record {
        all = s.all ++ m.run_id ∷ [];
        order = s.order ++ m.run_id ∷ [];
        records = insert m.run_id r s.records;
      })
unfolding enqueue
enqueued m s s' r h = elim (Option-cases (lookup m.run_id s.records)) [
  | inl e ↦ (e, ground (arith, e), ground (arith, e))
  | inr (x, e) ↦ ground (arith, e)
]

module _ {V : Type 0} (validate : MatchSubmission → Option V) where
  submitted :
      (m : MatchSubmission) (s s' : Store) (r : QueueRecord)
      → submit validate m s ≡ (ok r, s')
      → (validate m ≡ none) × (enqueue m s ≡ (ok r, s'))
  unfolding submit
  submitted m s s' r h = elim (Option-cases (validate m)) [
    | inr (e, f) ↦ ground (arith, f)
    | inl f ↦ elim (Result-cases (enqueue m s).0) [
      | inl (e, g) ↦ ground (arith, f, g)
      | inr (x, g) ↦ (f, ground (arith, f, g))
    ]
  ]

  found :
      (run : String) (s : Store) (r : QueueRecord)
      → get run s ≡ ok r
      → lookup run s.records ≡ some r
  unfolding get
  found run s r h = ground arith

  followed :
      (kind : RunKind) (from : LifecycleState) (refusal : CommandError V) (new_id run : String)
      (s s' : Store) (r : QueueRecord)
      → submit_follow_up kind from refusal validate new_id run s ≡ (ok r, s')
      → (old : QueueRecord) × (lookup (trim_space run) s.records ≡ some old)
        × (same_state old.state from ≡ true)
        × (submit validate (follow_up kind new_id old.submission) s ≡ (ok r, s'))
  unfolding submit_follow_up
  followed kind from refusal new_id run s s' r h = elim (Result-cases (get (trim_space run) s)) [
    | inl (e, g) ↦ ground (arith, g)
    | inr (old, g) ↦ elim (Bool-cases (same_state old.state from)) [
      | inl q ↦ (old, found (trim_space run) s old g, q, ground (arith, g, q))
      | inr q ↦ ground (arith, g, q)
    ]
  ]

  -- A retry or rerun that succeeds found the named run in the state that it asks for, and appends
  -- to the order a queued run of the new id: of the same match and players, one attempt later, after
  -- the named run, and not official. Every record of the store stays as it was.
  pub submit_follow_up_lem :
      (kind : RunKind) (from : LifecycleState) (refusal : CommandError V) (new_id run : String)
      (s s' : Store) (r : QueueRecord)
      → submit_follow_up kind from refusal validate new_id run s ≡ (ok r, s')
      → (old : QueueRecord) × (lookup (trim_space run) s.records ≡ some old)
        × (same_state old.state from ≡ true)
        × (r.submission ≡ record (old.submission) {
          run_id = new_id;
          attempt_count = increment old.submission.attempt_count;
          parent_run_id = old.submission.run_id;
          run_kind = kind;
          official = false;
        })
        × (r.state ≡ queued)
        × (s'.order ≡ s.order ++ new_id ∷ [])
        × (lookup new_id s'.records ≡ some r)
        × ((j : String) (x : QueueRecord)
            → lookup j s.records ≡ some x
            → lookup j s'.records ≡ some x)
  submit_follow_up_lem kind from refusal new_id run s s' r h =
      let (old, g, q, sent) = followed kind from refusal new_id run s s' r h in
      let (fine, added) = submitted (follow_up kind new_id old.submission) s s' r sent in
      let (absent, made, after) = enqueued (follow_up kind new_id old.submission) s s' r added in
      (
        old,
        g,
        q,
        ground (arith, made),
        ground (arith, made),
        ground (arith, after),
        ground (arith, after, eq_iff new_id new_id, lookup-insert new_id new_id r s.records),
        λ j x e.
            ground (arith, after, absent, e, eq_iff new_id j, lookup-insert new_id j r s.records),
      )

-- The submission of a retry or rerun passes ValidateSubmission if that of the run did, the new id is
-- not blank, and the attempt count can still grow.
pub follow_up-IsAdmissible :
    (kind : RunKind) (new_id : String) (m : MatchSubmission)
    → (kind ≡ retry) ⊎ (kind ≡ rerun)
    → is_blank new_id ≡ false
    → m.attempt_count ≢ pos max_int
    → IsAdmissible m
    → validate_submission (follow_up kind new_id m) ≡ none
follow_up-IsAdmissible kind new_id m k named small a =
    (validate_submission_lem (follow_up kind new_id m)).1 (record {
      named = (named, a.named.1);
      game = a.game;
      output = a.output;
      attempt = positive m.attempt_count a.attempt small;
      following = follows k;
      some_player = a.some_player;
      identified = a.identified;
      distinct = a.distinct;
    })
  where
    positive : (c : ℤ) → is_positive c ≡ true → c ≢ pos max_int → is_positive (increment c) ≡ true
    positive c p q = ground arith

    follows : (kind ≡ retry) ⊎ (kind ≡ rerun) → IsFollowing (follow_up kind new_id m) kind
    follows (inl e) = subst (IsFollowing (follow_up kind new_id m)) (sym e) a.named.0
    follows (inr e) = subst (IsFollowing (follow_up kind new_id m)) (sym e) a.named.0
