-- ===== src/Service/Store.antt =====
-- internal/platform/service/store_memory.go: InMemoryQueueStore.
-- An operation returns its result and the store it leaves. A clone is the value itself. The clock
-- is an argument, and so is the order in which a range visits the map, where it matters.
use ai_arena.Prelude.{
  ℕ, ◌+◌, String, Bool, true, false, List, [], ◌∷◌, ◌++◌, Option, none, some, ◌is◌, if◌then◌else◌,
  Dict, lookup, insert, leb, is_blank, Result, ok, err,
}
use ai_arena.Service.Records.{
  MatchSubmission, QueueRecord, WorkerLease, LifecycleState, queued, leased, running, persisting,
  completed, canceled, same_state, TransitionError, validate_transition,
}

pub record Store : Type 0 where
  pub all : List String
  pub order : List String
  pub records : Dict QueueRecord

pub data StoreError : Type 0 where
  run_id_required : StoreError
  run_id_exists : String → StoreError
  worker_id_required : StoreError
  record_not_found : StoreError
  no_queued_submission : StoreError
  not_lease_owner : String → StoreError
  transition_refused : TransitionError → StoreError
  -- It wraps ErrConflict.
  not_completed : StoreError
  not_cancelable : StoreError

-- What a method returns, and the store after it.
abbrev pub Outcome : Type 0 → Type 0
Outcome A = Result StoreError A × Store

abbrev pub new : Store
new = record { all = []; order = []; records = [] }

-- 30 seconds.
abbrev pub worker_lease_duration : ℕ
worker_lease_duration = 30000000000

abbrev pub new_worker_lease : String → ℕ → WorkerLease
new_worker_lease worker now = record {
  worker_id = worker;
  deadline = now + worker_lease_duration;
  last_heartbeat = now;
}

unfoldable pub enqueue : MatchSubmission → Store → Outcome QueueRecord
enqueue submission s =
    let added : QueueRecord = record {
      submission = submission;
      state = queued;
      completed_at = none;
      lease = none;
      terminal = none;
    } in
    if is_blank submission.run_id
    then (err run_id_required, s)
    else elim (lookup submission.run_id s.records) [
      | some _ ↦ (err (run_id_exists submission.run_id), s)
      | none ↦ (
        ok added,
        record {
          all = s.all ++ submission.run_id ∷ [];
          order = s.order ++ submission.run_id ∷ [];
          records = insert submission.run_id added s.records;
        },
      )
    ]

abbrev pub lease_to : String → ℕ → QueueRecord → QueueRecord
lease_to worker now r = record r { state = leased; lease = some (new_worker_lease worker now) }

-- The loop of Claim over what is left of the order.
unfoldable pub claim_next : String → ℕ → List String → Store → Outcome QueueRecord
claim_next worker now [] s = (err no_queued_submission, record s { order = [] })
claim_next worker now (id ∷ rest) s =
    let skipped = claim_next worker now rest s in
    elim (lookup id s.records) [
      | none ↦ skipped
      | some r ↦
          if same_state r.state queued
          then (
            ok (lease_to worker now r),
            record s { order = rest; records = insert id (lease_to worker now r) s.records },
          )
          else skipped
    ]

unfoldable pub claim : String → ℕ → Store → Outcome QueueRecord
claim worker now s =
    if is_blank worker then (err worker_id_required, s) else claim_next worker now s.order s

unfoldable pub owns : String → QueueRecord → Bool
owns worker r = elim r.lease [ none ↦ false | some l ↦ l.worker_id is worker ]

unfoldable pub heartbeat : String → String → ℕ → Store → Outcome (Unit {0})
heartbeat run worker now s = elim (lookup run s.records) [
  | none ↦ (err record_not_found, s)
  | some r ↦
      if owns worker r
      then (
        ok tt,
        record s {
          records = insert run (record r { lease = some (new_worker_lease worker now) }) s.records;
        },
      )
      else (err (not_lease_owner run), s)
]

abbrev pub in_flight : LifecycleState → Bool
in_flight leased = true
in_flight running = true
in_flight persisting = true
in_flight _ = false

unfoldable pub is_recoverable_lease : QueueRecord → ℕ → Bool
is_recoverable_lease r now = elim r.lease [
  | none ↦ false
  | some l ↦ if leb l.deadline now then in_flight r.state else false
]

abbrev pub requeue : QueueRecord → QueueRecord
requeue r = record r { state = queued; lease = none }

-- One round of the range of RecoverExpired: how many it recovers.
unfoldable pub recover_one : ℕ → String → Store → ℕ × Store
recover_one now id s = elim (lookup id s.records) [
  | none ↦ (0, s)
  | some r ↦
      if is_recoverable_lease r now
      then (1, record s { order = s.order ++ id ∷ []; records = insert id (requeue r) s.records })
      else (0, s)
]

-- RecoverExpired, where the range visits the keys in the order of `visit`.
unfoldable pub recover_expired : ℕ → List String → Store → ℕ × Store
recover_expired now [] s = (0, s)
recover_expired now (id ∷ visit) s =
    let (n, s') = recover_one now id s in
    let (m, s'') = recover_expired now visit s' in (n + m, s'')

-- CompletedAt after an update: set once, when the run completes.
unfoldable pub completion : Option ℕ → LifecycleState → ℕ → Option ℕ
completion (some t) next now = some t
completion none next now = if same_state next completed then some now else none

unfoldable pub update : QueueRecord → ℕ → Store → Outcome (Unit {0})
update next now s = elim (lookup next.submission.run_id s.records) [
  | none ↦ (err record_not_found, s)
  | some current ↦ elim (validate_transition current.state next.state) [
    | some e ↦ (err (transition_refused e), s)
    | none ↦ (
      ok tt,
      record s {
        records =
            insert next.submission.run_id
              (record next { completed_at = completion current.completed_at next.state now })
              s.records;
      },
    )
  ]
]

-- The body of the range of Promote, on the record of `id`.
unfoldable pub select : String → String → String → QueueRecord → QueueRecord
select match_id run id r =
    if r.submission.match_id is match_id
    then record r { submission = record r.submission { official = id is run } }
    else r

unfoldable pub select_each : String → String → Dict QueueRecord → Dict QueueRecord
select_each match_id run [] = []
select_each match_id run ((id, r) ∷ rest) =
    (id, select match_id run id r) ∷ select_each match_id run rest

unfoldable pub promote : String → Store → Outcome QueueRecord
promote run s = elim (lookup run s.records) [
  | none ↦ (err record_not_found, s)
  | some target ↦
      let match_id = target.submission.match_id in
      if same_state target.state completed
      then (
        ok (select match_id run run target),
        record s { records = select_each match_id run s.records },
      )
      else (err not_completed, s)
]

unfoldable pub remove_from_order : String → List String → List String
remove_from_order run [] = []
remove_from_order run (id ∷ rest) =
    let filtered = remove_from_order run rest in if id is run then filtered else id ∷ filtered

unfoldable pub cancel_queued : String → Store → Outcome QueueRecord
cancel_queued run s = elim (lookup run s.records) [
  | none ↦ (err record_not_found, s)
  | some r ↦
      let gone = record r { state = canceled; lease = none; terminal = none } in
      if same_state r.state queued
      then elim (validate_transition r.state canceled) [
        | some e ↦ (err (transition_refused e), s)
        | none ↦ (
          ok gone,
          record s { order = remove_from_order run s.order; records = insert run gone s.records },
        )
      ]
      else (err not_cancelable, s)
]

unfoldable pub get : String → Store → Result StoreError QueueRecord
get run s = elim (lookup run s.records) [ none ↦ err record_not_found | some r ↦ ok r ]

unfoldable pub list_records : List String → Dict QueueRecord → List QueueRecord
list_records [] records = []
list_records (id ∷ ids) records = elim (lookup id records) [
  | none ↦ list_records ids records
  | some r ↦ r ∷ list_records ids records
]

abbrev pub list : Store → List QueueRecord
list s = list_records s.all s.records
