-- ===== src/Match/Events.antt =====
-- internal/platform/match/match.go: the runner's event log, and what it appends to it.
use ai_arena.Prelude.{
  suc, String, Bool, true, false, [], ◌∷◌, ◌++◌, Option, none, some, ◌is◌, if◌then◌else◌, ok, err,
}
use ai_arena.Prelude.Int.{ℤ, pos}
use Prim.Native.String.{◌++◌ as text_append}
use ai_arena.Json.{Json, RawMessage, value, text, boolean, object, end, field}
use ai_arena.Contract.{FailureReason, ExportedSnapshot}
use ai_arena.Session.{SessionResult}
use ai_arena.Match.{Event}
use ai_arena.Match.Payloads.{decimal, reason_text, mode_text}
use ai_arena.Match.World.{
  World, Observer, StderrSnapshot, Runner, RunError, external, init_failed, not_one_request,
  unsupported_mode,
}

-- An argument of appendEvent: the name of its type and what json.Marshal gives.
pub record Payload : Type 0 where
  pub type_name : String
  pub json : Option Json

abbrev pub map_payload : Json → Payload
map_payload j = record { type_name = "map[string]interface {}"; json = some j }

-- { name: t }, the map of one text.
abbrev pub text_payload : String → String → Payload
text_payload name t = map_payload (object (field name (text t) end))

abbrev pub is_runtime_stop : FailureReason → Bool
is_runtime_stop FailureReason.runtime_stop = true
is_runtime_stop _ = false

abbrev pub diagnostic_payload : SessionResult → StderrSnapshot → Payload
diagnostic_payload result stderr = map_payload (
    object (
      field "exit_cause" (text result.runtime_error)
        (field "stderr" (text stderr.output) (field "truncated" (boolean stderr.truncated) end))))

module _ {S E : Type 0} (w : World S E) where
  -- The fallback of two texts always encodes.
  unfoldable pub must_marshal_payload : Payload → RawMessage
  must_marshal_payload p = elim p.json [
    | some j ↦ value j
    | none ↦ value (
        object (
          field "marshal_error" (text (w.marshal_error p.type_name))
            (field "payload_type" (text p.type_name) end)))
  ]

  unfoldable pub observe : Option (Observer S) → Event → S → S
  observe none e s = s
  observe (some o) e s = o.on_event e s

  unfoldable pub append_event : String → ℤ → String → Payload → Runner S E → Runner S E
  unfolding must_marshal_payload observe
  append_event kind turn player_id payload r =
      let event : Event = record {
        seq = pos (suc r.next_seq);
        kind = kind;
        turn = turn;
        player_id = player_id;
        payload = must_marshal_payload payload;
      } in
      record r {
        next_seq = suc r.next_seq;
        events = r.events ++ event ∷ [];
        world = observe w.observer event r.world;
      }

  unfoldable pub run_error_text : RunError E → String
  unfolding decimal reason_text mode_text
  run_error_text (external e) = w.error_text e
  run_error_text (init_failed player reason) =
      text_append "init failed for " (text_append player (text_append ": " (reason_text reason)))
  run_error_text (not_one_request n) =
      text_append "sequential step must contain exactly one request, got " (decimal (pos n))
  run_error_text (unsupported_mode m) =
      text_append "unsupported decision mode " (w.quoted (mode_text m))

  -- errString.
  unfoldable pub err_string : Option (RunError E) → String
  unfolding run_error_text
  err_string none = ""
  err_string (some e) = run_error_text e

  unfoldable pub append_runtime_exited : ℤ → String → Payload → Runner S E → Runner S E
  unfolding append_event
  append_runtime_exited turn player_id payload r =
      append_event "runtime_exited" turn player_id payload r

  unfoldable pub append_runtime_diagnostic : ℤ → String → SessionResult → Runner S E → Runner S E
  unfolding append_event
  append_runtime_diagnostic turn player_id result r =
      if result.runtime_error is ""
      then r
      else append_event "runtime_diagnostic" turn player_id
          (diagnostic_payload result (w.stderr player_id r.world)) r

  unfoldable pub publish_to : Option (ExportedSnapshot → S → S) → Runner S E → Runner S E
  publish_to none r = r
  publish_to (some publish) r = elim (w.current_exported_snapshot r.world).0 [
    | err e ↦ record r { world = (w.current_exported_snapshot r.world).1 }
    | ok exported ↦ record r { world = publish exported (w.current_exported_snapshot r.world).1 }
  ]

  unfoldable pub publish_exported_snapshot : Runner S E → Runner S E
  unfolding publish_to
  publish_exported_snapshot r = elim w.observer [
    | none ↦ r
    | some o ↦ publish_to o.on_exported_snapshot r
  ]
