-- ===== src/Service/Examples.antt =====
-- The queue store on concrete runs.
use ai_arena.Prelude.{
  ℕ, String, true, false, [], ◌∷◌, ◌++◌, none, some, ◌≡◌, ◌≢◌, refl, subst, ◌⊎◌, ◌↔◌, arith, lookup,
  insert, contains, is_blank, trim_space, trim_left, trim_right, ok, err, ◌is◌, if◌then◌else◌,
  length,
}
use ai_arena.Prelude.Int.{pos}
use ai_arena.Service.Records.{
  MatchSubmission, SubmittedPlayer, QueueRecord, initial, queued, running, completed,
}
use ai_arena.Service.Store.{
  Store, new, enqueue, claim, claim_next, lease_to, heartbeat, owns, update, completion,
  recover_one, recover_expired, is_recoverable_lease, promote, select, select_each,
  no_queued_submission,
}
use ai_arena.Service.Soundness.{IsSound, new-IsSound}
use ai_arena.Service.Claims.{is_waiting, Handed, claim_first, claim_twice}
use ai_arena.Service.Lifecycle.{
  enqueuing, claiming, promoting, recovering, perform_all, perform-IsSound, Remains,
  perform_all-Remains, terminal_stays,
}
use ai_arena.Service.Promotion.{promote_selects}
use ai_arena.Service.Recovery.{recovered, recoverable, recover_expired_lem}
use ai_arena.Service.Submissions.{validate_submission, validate_submission_lem, IsAdmissible}

abbrev pub player : SubmittedPlayer
player = record {
  player_id = "ann";
  bot_id = "bot-1";
  bot_name = "Ann";
  ai_submission_id = "";
  artifact_ref = "ann.wasm";
  artifact_id = "";
}

abbrev pub submission : String → MatchSubmission
submission run = record {
  run_id = run;
  match_id = "match-1";
  game = record { game_id = "janken"; game_version = "2.1.0"; ruleset_version = "regular" };
  game_artifact_id = "";
  players = player ∷ [];
  output_dir = "out";
  attempt_count = pos 1;
  parent_run_id = "";
  run_kind = initial;
  official = false;
}

abbrev pub waiting_record : String → QueueRecord
waiting_record run = record {
  submission = submission run;
  state = queued;
  completed_at = none;
  lease = none;
  terminal = none;
}

-- Two queued runs.
abbrev pub two : Store
two = record {
  all = "run-1" ∷ "run-2" ∷ [];
  order = "run-1" ∷ "run-2" ∷ [];
  records = ("run-1", waiting_record "run-1") ∷ ("run-2", waiting_record "run-2") ∷ [];
}

enqueues :
    perform_all (enqueuing (submission "run-1") ∷ enqueuing (submission "run-2") ∷ []) new ≡ two
unfolding enqueue is_blank trim_space trim_left trim_right lookup insert
enqueues = refl

pub two-IsSound : IsSound two
two-IsSound = subst IsSound enqueues (
    perform-IsSound (enqueuing (submission "run-2")) (enqueue (submission "run-1") new).1
      (perform-IsSound (enqueuing (submission "run-1")) new new-IsSound))

named : is_blank "worker" ≡ false
unfolding is_blank trim_space trim_left trim_right
named = refl

claim_first_example :
    (claim "worker" 7 two ≡ (err no_queued_submission, record two { order = [] }))
      × ((id : String) → is_waiting two.records id ≡ false)
    ⊎ Handed "worker" 7 two.order two (claim "worker" 7 two)
claim_first_example = claim_first "worker" 7 two two-IsSound named

abbrev pub leased_record : String → QueueRecord
leased_record run = lease_to "worker" 7 (waiting_record run)

abbrev pub one_leased : Store
one_leased = record two {
  order = "run-2" ∷ [];
  records = ("run-1", leased_record "run-1") ∷ ("run-2", waiting_record "run-2") ∷ [];
}

abbrev both_leased : Store
both_leased = record two {
  order = [];
  records = ("run-1", leased_record "run-1") ∷ ("run-2", leased_record "run-2") ∷ [];
}

pub first_claim : claim "worker" 7 two ≡ (ok (leased_record "run-1"), one_leased)
unfolding claim claim_next is_blank trim_space trim_left trim_right lookup insert
first_claim = refl

second_claim : claim "worker" 7 one_leased ≡ (ok (leased_record "run-2"), both_leased)
unfolding claim claim_next is_blank trim_space trim_left trim_right lookup insert
second_claim = refl

claim_twice_example : ◌≢◌ {A = String} "run-1" "run-2"
claim_twice_example =
    claim_twice "worker" "worker" 7 7 two one_leased both_leased (leased_record "run-1")
      (leased_record "run-2") two-IsSound first_claim second_claim

perform-IsSound_example : IsSound (claim "worker" 7 two).1
perform-IsSound_example = perform-IsSound (claiming "worker" 7) two two-IsSound

-- A completed run beside a queued one.
abbrev done_record : QueueRecord
done_record = record (waiting_record "run-1") { state = completed; completed_at = some 9 }

abbrev done : Store
done = record two {
  order = "run-2" ∷ [];
  records = ("run-1", done_record) ∷ ("run-2", waiting_record "run-2") ∷ [];
}

terminal_stays_example :
    (x' : QueueRecord) × (lookup "run-1"
        (perform_all (claiming "worker" 7 ∷ promoting "run-1" ∷ []) done).records
      ≡ some x')
    × (x'.state ≡ completed)
    × ((t : ℕ) → some 9 ≡ some t → x'.completed_at ≡ some t)
unfolding lookup
terminal_stays_example =
    terminal_stays (claiming "worker" 7 ∷ promoting "run-1" ∷ []) "run-1" done_record done refl refl

perform_all-Remains_example :
    Remains "run-1"
      (waiting_record "run-1")
      (perform_all (claiming "worker" 7 ∷ recovering 8 ("run-1" ∷ []) ∷ []) two)
unfolding lookup
perform_all-Remains_example =
    perform_all-Remains (claiming "worker" 7 ∷ recovering 8 ("run-1" ∷ []) ∷ []) "run-1"
      (waiting_record "run-1") two refl

abbrev official_record : QueueRecord
official_record = record done_record {
  submission = record (submission "run-1") { official = true };
}

abbrev promoted_store : Store
promoted_store = record done {
  records = ("run-1", official_record) ∷ ("run-2", waiting_record "run-2") ∷ [];
}

promotes : promote "run-1" done ≡ (ok official_record, promoted_store)
unfolding promote select select_each lookup
promotes = refl

promote_selects_example :
    (completed ≡ completed)
    × (true ≡ true)
    × (lookup "run-1" promoted_store.records ≡ some official_record)
    × ((j : String) (x : QueueRecord)
        → lookup j done.records ≡ some x
        → lookup j promoted_store.records
          ≡ some (
              if x.submission.match_id is "match-1"
              then record x { submission = record x.submission { official = j is "run-1" } }
              else x))
promote_selects_example = promote_selects "run-1" done promoted_store official_record promotes

recover_expired_lem_example :
    ((j : String)
      → lookup j (recover_expired 40000000000 ("run-2" ∷ "run-1" ∷ []) one_leased).1.records ≡ (
          if contains j ("run-2" ∷ "run-1" ∷ [])
          then recovered 40000000000 (lookup j one_leased.records)
          else lookup j one_leased.records))
    × ((recover_expired 40000000000 ("run-2" ∷ "run-1" ∷ []) one_leased).1.order
        ≡ "run-2" ∷ [] ++ recoverable 40000000000 one_leased.records ("run-2" ∷ "run-1" ∷ []))
    × ((recover_expired 40000000000 ("run-2" ∷ "run-1" ∷ []) one_leased).1.all
        ≡ "run-1" ∷ "run-2" ∷ [])
    × ((recover_expired 40000000000 ("run-2" ∷ "run-1" ∷ []) one_leased).0
        ≡ length (recoverable 40000000000 one_leased.records ("run-2" ∷ "run-1" ∷ [])))
unfolding contains
recover_expired_lem_example =
    recover_expired_lem 40000000000 ("run-2" ∷ "run-1" ∷ []) one_leased (ground arith)

validate_submission_lem_example :
    validate_submission (submission "run-1") ≡ none ↔ IsAdmissible (submission "run-1")
validate_submission_lem_example = validate_submission_lem (submission "run-1")

-- An update with the record that the worker holds since its claim writes the old deadline over a
-- renewed one: the run is recovered five seconds after a heartbeat.
abbrev held : QueueRecord
held = record (leased_record "run-1") { state = running }

test_update_restores_old_lease :
    (recover_expired 40000000000
      ("run-1" ∷ [])
      (update held 36000000000 (heartbeat "run-1" "worker" 35000000000 one_leased).1).1).0
    ≡ 1
unfolding recover_expired recover_one update heartbeat owns completion is_recoverable_lease lookup
    insert
test_update_restores_old_lease = refl
