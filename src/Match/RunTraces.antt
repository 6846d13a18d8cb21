-- ===== src/Match/RunTraces.antt =====
-- internal/platform/match/match.go: the terminal event, by how the match ended.
use ai_arena.Prelude.{
  suc, String, false, List, [], ◌∷◌, ◌++◌, Option, none, some, ◌≡◌, refl, sym, inl, inr, Result, ok,
  err, Option-cases, length, ap, ◌∙◌, arith, subst,
}
use ai_arena.Json.{struct_fields, text_field, same_name, assign_text}
use ai_arena.Contract.{MatchStatus}
use ai_arena.Match.{Event, event_error, last_error}
use ai_arena.Match.World.{World, Runner, RunError}
use ai_arena.Prelude.Int.{ℤ, pos}
use ai_arena.Match.Events.{
  Payload, text_payload, must_marshal_payload, append_event, err_string, run_error_text,
}
use ai_arena.Match.Finishing.{note_capture, emit_as, emit_terminal_event, result_payload}
use ai_arena.Match.Traces.{
  Logs, Trace, trace_of, Keeps, Numbered, AllQuiet, is_terminal, Numbered-append,
}

-- The status of a match that has ended, and the error that ended it.
pub data Shape {E : Type 0} : MatchStatus → Option (RunError E) → Type 0 where
  success : Shape MatchStatus.completed none
  failure : (e : RunError E) → Shape MatchStatus.failed (some e)
  cancellation : (e : RunError E) → Shape MatchStatus.canceled (some e)

abbrev pub terminal_kind : MatchStatus → String
terminal_kind MatchStatus.completed = "match_completed"
terminal_kind MatchStatus.canceled = "match_canceled"
terminal_kind _ = "match_failed"

-- The statuses of a match that has ended.
pub data IsFinal : MatchStatus → Type 0 where
  ends_completed : IsFinal MatchStatus.completed
  ends_failed : IsFinal MatchStatus.failed
  ends_canceled : IsFinal MatchStatus.canceled

-- A log numbered from 1 on whose only terminal event is its last, which tells the status, a final one.
pub record IsFinalLog (status : MatchStatus) (log : List Event) : Type 0 where
  pub before : List Event
  pub last : Event
  pub parts : log ≡ before ++ last ∷ []
  pub quiet : AllQuiet before
  pub final : IsFinal status
  pub kind : last.kind ≡ terminal_kind status
  pub numbered : Numbered 0 log

event_error-quiet : (e : Event) → is_terminal e.kind ≡ false → event_error e ≡ none
unfolding event_error
event_error-quiet e q = ground (arith, q)

last_error-quiet :
    (before : List Event) (last : Event)
    → AllQuiet before
    → last_error (before ++ last ∷ []) ≡ event_error last
unfolding last_error
last_error-quiet [] last q = elim (Option-cases (event_error last)) [
  | inl p ↦ rw p
  | inr (t, p) ↦ rw p
]
last_error-quiet (e ∷ before) last q = elim (Option-cases (event_error last)) [
  | inl p ↦ rw (last_error-quiet before last q.1, p, event_error-quiet e q.0)
  | inr (t, p) ↦ rw (last_error-quiet before last q.1, p)
]

module _ {S E : Type 0} (w : World S E) where
  -- The error that the log tells.
  abbrev pub told : Option (RunError E) → Option String
  told none = none
  told (some e) = some (run_error_text w e)

  -- What is known of a status and an error.
  abbrev pub Why : Type 1
  Why = MatchStatus → Option (RunError E) → Type 0

  -- After the terminal event.
  pub record IsWound (why : Why) (r : Runner S E) : Type 0 where
    pub status : MatchStatus
    pub error : Option (RunError E)
    pub shape : Shape status error
    pub because : why status error
    pub standing : r.status ≡ status
    pub final_error : r.terminal_err ≡ error
    pub log : IsFinalLog status r.events
    pub telling : last_error r.events ≡ told error

  -- A terminal event at the end of a log in order.
  append_event-IsFinalLog :
      (st : MatchStatus) (te : Option (RunError E)) (turn : ℤ) (payload : Payload) (r : Runner S E)
      → IsFinal st
      → Logs st te (trace_of r)
      → IsFinalLog st (append_event w (terminal_kind st) turn "" payload r).events
  unfolding append_event
  append_event-IsFinalLog st te turn payload r f h =
      let event : Event = record {
        seq = pos (suc r.next_seq);
        kind = terminal_kind st;
        turn = turn;
        player_id = "";
        payload = must_marshal_payload w payload;
      } in
      let counted : r.next_seq ≡ length r.events = h.counted in
      record {
        before = r.events;
        last = event;
        parts = refl;
        quiet = h.quiet;
        final = f;
        kind = refl;
        numbered = Numbered-append 0 event r.events h.numbered (ap pos (omega (arith, counted)));
      }

  emit_failed :
      (why : Why) (e : RunError E) (r : Runner S E)
      → why MatchStatus.failed (some e)
      → Logs MatchStatus.failed (some e) (trace_of r)
      → IsWound why (emit_as w MatchStatus.failed r)
  unfolding emit_as append_event err_string must_marshal_payload event_error struct_fields
      text_field same_name assign_text
  emit_failed why e r d h =
      let payload = text_payload "error" (err_string w r.terminal_err) in
      let told_e : err_string w r.terminal_err ≡ run_error_text w e = rw h.ended in
      record {
        status = MatchStatus.failed;
        error = some e;
        shape = failure e;
        because = d;
        standing = h.standing;
        final_error = h.ended;
        log =
            append_event-IsFinalLog MatchStatus.failed (some e) r.final_snapshot.turn payload r
              ends_failed h;
        telling = last_error-quiet r.events _ h.quiet ∙ ap some told_e;
      }

  emit_canceled :
      (why : Why) (e : RunError E) (r : Runner S E)
      → why MatchStatus.canceled (some e)
      → Logs MatchStatus.canceled (some e) (trace_of r)
      → IsWound why (emit_as w MatchStatus.canceled r)
  unfolding emit_as append_event err_string must_marshal_payload event_error struct_fields
      text_field same_name assign_text
  emit_canceled why e r d h =
      let payload = text_payload "error" (err_string w r.terminal_err) in
      let told_e : err_string w r.terminal_err ≡ run_error_text w e = rw h.ended in
      record {
        status = MatchStatus.canceled;
        error = some e;
        shape = cancellation e;
        because = d;
        standing = h.standing;
        final_error = h.ended;
        log =
            append_event-IsFinalLog MatchStatus.canceled (some e) r.final_snapshot.turn payload r
              ends_canceled h;
        telling = last_error-quiet r.events _ h.quiet ∙ ap some told_e;
      }

  emit_completed :
      (why : Why) (r : Runner S E)
      → why MatchStatus.completed none
      → Logs MatchStatus.completed none (trace_of r)
      → IsWound why (emit_as w MatchStatus.completed r)
  unfolding emit_as append_event event_error
  emit_completed why r d h =
      let ending = record r { phase = MatchStatus.completed } in
      record {
        status = MatchStatus.completed;
        error = none;
        shape = success;
        because = d;
        standing = h.standing;
        final_error = h.ended;
        log =
            append_event-IsFinalLog MatchStatus.completed none r.final_snapshot.turn
              (result_payload r.final_result) ending ends_completed h;
        telling = last_error-quiet r.events _ h.quiet;
      }

  emit_as_lem :
      (why : Why) (st : MatchStatus) (te : Option (RunError E)) (r : Runner S E)
      → Shape st te
      → why st te
      → Logs st te (trace_of r)
      → IsWound why (emit_as w st r)
  emit_as_lem why st te r success d h = emit_completed why r d h
  emit_as_lem why st te r (failure e) d h = emit_failed why e r d h
  emit_as_lem why st te r (cancellation e) d h = emit_canceled why e r d h

  -- A runner that stands as it ended.
  pub record IsEnding (why : Why) (r : Runner S E) : Type 0 where
    pub status : MatchStatus
    pub error : Option (RunError E)
    pub shape : Shape status error
    pub because : why status error
    pub logs : Logs status error (trace_of r)

  pub emit_terminal_event_lem :
      (why : Why) (r : Runner S E) → IsEnding why r → IsWound why (emit_terminal_event w r)
  unfolding emit_terminal_event
  emit_terminal_event_lem why r i =
      subst (λ s. IsWound why (emit_as w s r)) (sym i.logs.standing)
        (emit_as_lem why i.status i.error r i.shape i.because i.logs)

  -- Another status, and another error.
  pub restated :
      {st : MatchStatus} {te : Option (RunError E)} (t : Trace E) (status : MatchStatus)
      (error : Option (RunError E))
      → Logs st te t
      → Logs status error (record t { status = status; terminal_err = error })
  restated t status error h = record {
    numbered = h.numbered;
    counted = h.counted;
    quiet = h.quiet;
    standing = refl;
    ended = refl;
  }

  note_failure :
      (before after : Why) (st : MatchStatus) (te : Option (RunError E)) (x : RunError E)
      (r : Runner S E)
      → (before MatchStatus.completed none → after MatchStatus.failed (some x))
      → ((st : MatchStatus) (e : RunError E) → before st (some e) → after st (some e))
      → Shape st te
      → before st te
      → Logs st te (trace_of r)
      → IsEnding after (note_capture w (err x) r)
  unfolding note_capture
  note_failure before after st te x r lost same success d h =
      rw (h.ended, h.standing, note_capture)
        (record {
          status = MatchStatus.failed;
          error = some x;
          shape = failure x;
          because = lost d;
          logs = restated (trace_of r) MatchStatus.failed (some x) h;
        })
  note_failure before after st te x r lost same (failure e) d h =
      rw (h.ended, note_capture)
        (record { status = st; error = te; shape = failure e; because = same st e d; logs = h })
  note_failure before after st te x r lost same (cancellation e) d h =
      rw (h.ended, note_capture)
        (record {
          status = st;
          error = te;
          shape = cancellation e;
          because = same st e d;
          logs = h;
        })

  -- The final state is read, or the error of a match that has none is the one of the reading.
  pub note_capture_lem :
      (before after : Why) (captured : Result (RunError E) (Unit {0})) (r : Runner S E)
      → (captured ≡ ok tt → before MatchStatus.completed none → after MatchStatus.completed none)
      → ((x : RunError E)
          → captured ≡ err x
          → before MatchStatus.completed none
          → after MatchStatus.failed (some x))
      → ((st : MatchStatus) (e : RunError E) → before st (some e) → after st (some e))
      → IsEnding before r
      → IsEnding after (note_capture w captured r)
  unfolding note_capture
  note_capture_lem before after (ok _) r kept lost same i = record {
    status = i.status;
    error = i.error;
    shape = i.shape;
    because = read i.status i.error i.shape i.because;
    logs = i.logs;
  }
    where
      read :
          (st : MatchStatus) (te : Option (RunError E)) → Shape st te → before st te → after st te
      read st te success d = kept refl d
      read st te (failure e) d = same st e d
      read st te (cancellation e) d = same st e d
  note_capture_lem before after (err e) r kept lost same i =
      note_failure before after i.status i.error e r (lost e refl) same i.shape i.because i.logs

  -- A function that keeps the log in order keeps the ending.
  pub IsEnding-Keeps :
      (why : Why) (f : Runner S E → Runner S E) (r : Runner S E)
      → Keeps f
      → IsEnding why r
      → IsEnding why (f r)
  IsEnding-Keeps why f r k i = record {
    status = i.status;
    error = i.error;
    shape = i.shape;
    because = i.because;
    logs = k i.status i.error r i.logs;
  }
