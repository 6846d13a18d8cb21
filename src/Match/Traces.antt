-- ===== src/Match/Traces.antt =====
-- internal/platform/match/match.go: how the event log grows. Everything that happens before the
-- terminal event only adds numbered events, and leaves the status to Run.
use ai_arena.Prelude.{
  ℕ, suc, ◌+◌, String, Bool, false, ◌||◌, List, [], ◌∷◌, ◌++◌, Option, none, some, ◌is◌, ◌≡◌, refl,
  ap, ◌∙◌, arith, length, length-append, All, Result, Option-cases, Result-cases, Bool-cases, inl,
  inr,
}
use ai_arena.Prelude.Int.{ℤ, pos}
use ai_arena.Contract.{MatchStatus, ExportedSnapshot}
use ai_arena.Session.{SessionResult}
use ai_arena.Match.{Event}
use ai_arena.Match.World.{
  World, Runner, RunError, Run, ◌>>=◌, ◌>>◌, done, raise, change, ask, attempt,
}
use ai_arena.Match.Events.{
  Payload, diagnostic_payload, must_marshal_payload, append_event, append_runtime_exited,
  append_runtime_diagnostic, publish_to, publish_exported_snapshot,
}

-- Numbered after n: n + 1, n + 2 and so on.
abbrev pub Numbered : ℕ → List Event → Type 0
Numbered n [] = Unit {0}
Numbered n (e ∷ es) = (e.seq ≡ pos (suc n)) × Numbered (suc n) es

abbrev pub is_terminal : String → Bool
is_terminal kind = kind is "match_completed" || (kind is "match_failed" || kind is "match_canceled")

abbrev pub AllQuiet : List Event → Type 0
AllQuiet = All λ e. is_terminal e.kind ≡ false

pub Numbered-append :
    (n : ℕ) (e : Event) (es : List Event)
    → Numbered n es
    → e.seq ≡ pos (suc (n + length es))
    → Numbered n (es ++ e ∷ [])
Numbered-append n e [] h k = (k ∙ ap pos (omega arith), tt)
Numbered-append n e (x ∷ es) h k =
    (h.0, Numbered-append (suc n) e es h.1 (k ∙ ap pos (omega arith)))

AllQuiet-append :
    (e : Event) (es : List Event)
    → AllQuiet es
    → is_terminal e.kind ≡ false
    → AllQuiet (es ++ e ∷ [])
AllQuiet-append e [] h k = (k, tt)
AllQuiet-append e (x ∷ es) h k = (h.0, AllQuiet-append e es h.1 k)

-- Of the result, if there is one.
abbrev pub IfSome : {A : Type 0} → (A → Type 0) → Option A → Type 0
IfSome P none = Unit {0}
IfSome P (some a) = P a

-- The log and the end of a runner.
pub record Trace (E : Type 0) : Type 0 where
  pub events : List Event
  pub next_seq : ℕ
  pub status : MatchStatus
  pub terminal_err : Option (RunError E)

abbrev pub trace_of : {S E : Type 0} → Runner S E → Trace E
trace_of r = record {
  events = r.events;
  next_seq = r.next_seq;
  status = r.status;
  terminal_err = r.terminal_err;
}

-- A log numbered from 1 on without a terminal event, under a status and an error.
pub record Logs {E : Type 0} (status : MatchStatus) (error : Option (RunError E)) (t : Trace E)
    : Type 0 where
  pub numbered : Numbered 0 t.events
  pub counted : t.next_seq ≡ length t.events
  pub quiet : AllQuiet t.events
  pub standing : t.status ≡ status
  pub ended : t.terminal_err ≡ error

module _ {S E : Type 0} where
  -- A change of the runner that keeps the log in order.
  abbrev pub Keeps : (Runner S E → Runner S E) → Type 0
  Keeps f =
      (status : MatchStatus) (error : Option (RunError E)) (r : Runner S E)
      → Logs status error (trace_of r)
      → Logs status error (trace_of (f r))

  pub record KeepsLog {A : Type 0} (m : Run S E A) : Type 0 where
    pub keeps : Keeps λ r. (m r).1

  pub bind-KeepsLog :
      {A B : Type 0} {m : Run S E A} {k : A → Run S E B}
      → KeepsLog m
      → ((a : A) → KeepsLog (k a))
      → KeepsLog (m >>= k)
  unfolding ◌>>=◌
  bind-KeepsLog {m = m} f g = record {
    keeps = λ st te r h. elim (Result-cases (m r).0) [
      | inl (e, p) ↦ rw p (f.keeps st te r h)
      | inr (a, p) ↦ rw p ((g a).keeps st te (m r).1 (f.keeps st te r h))
    ];
  }

  pub then-KeepsLog :
      {B : Type 0} {m : Run S E (Unit {0})} {k : Run S E B}
      → KeepsLog m
      → KeepsLog k
      → KeepsLog (m >> k)
  unfolding ◌>>◌
  then-KeepsLog f g = bind-KeepsLog f λ _. g

  pub change-KeepsLog : (f : Runner S E → Runner S E) → Keeps f → KeepsLog (change f)
  unfolding change
  change-KeepsLog f k = record { keeps = k }

  pub done-KeepsLog : {A : Type 0} (a : A) → KeepsLog (done a)
  unfolding done
  done-KeepsLog a = record { keeps = λ st te r h. h }

  pub raise-KeepsLog : {A : Type 0} (e : RunError E) → KeepsLog {A = A} (raise e)
  unfolding raise
  raise-KeepsLog e = record { keeps = λ st te r h. h }

  pub ask-KeepsLog : {A : Type 0} (f : S → A × S) → KeepsLog (ask f)
  unfolding ask
  ask-KeepsLog f = record { keeps = λ st te r h. h }

  pub attempt-KeepsLog : {A : Type 0} (f : S → Result E A × S) → KeepsLog (attempt f)
  unfolding attempt
  attempt-KeepsLog f = record { keeps = λ st te r h. h }

module _ {S E : Type 0} (w : World S E) where
  pub append_event-Keeps :
      (kind : String) (turn : ℤ) (player_id : String) (payload : Payload)
      → is_terminal kind ≡ false
      → Keeps (append_event w kind turn player_id payload)
  unfolding append_event
  append_event-Keeps kind turn player_id payload k st te r h =
      let event : Event = record {
        seq = pos (suc r.next_seq);
        kind = kind;
        turn = turn;
        player_id = player_id;
        payload = must_marshal_payload w payload;
      } in
      let counted : r.next_seq ≡ length r.events = h.counted in
      record {
        numbered = Numbered-append 0 event r.events h.numbered (ap pos (omega (arith, counted)));
        counted = omega (arith, counted, length-append r.events (event ∷ []));
        quiet = AllQuiet-append event r.events h.quiet k;
        standing = h.standing;
        ended = h.ended;
      }

  pub append_runtime_diagnostic-Keeps :
      (turn : ℤ) (player_id : String) (result : SessionResult)
      → Keeps (append_runtime_diagnostic w turn player_id result)
  unfolding append_runtime_diagnostic
  append_runtime_diagnostic-Keeps turn player_id result st te r h =
      let payload = diagnostic_payload result (w.stderr player_id r.world) in
      elim (Bool-cases (result.runtime_error is "")) [
        | inl e ↦ rw e h
        | inr e ↦
            rw e (append_event-Keeps "runtime_diagnostic" turn player_id payload refl st te r h)
      ]

  pub append_runtime_exited-Keeps :
      (turn : ℤ) (player_id : String) (payload : Payload)
      → Keeps (append_runtime_exited w turn player_id payload)
  unfolding append_runtime_exited
  append_runtime_exited-Keeps turn player_id payload =
      append_event-Keeps "runtime_exited" turn player_id payload refl

  publish_to-Keeps : (o : Option (ExportedSnapshot → S → S)) → Keeps (publish_to w o)
  unfolding publish_to
  publish_to-Keeps none st te r h = h
  publish_to-Keeps (some publish) st te r h =
      elim (Result-cases (w.current_exported_snapshot r.world).0) [
        | inl (e, p) ↦ rw (p, publish_to) h
        | inr (x, p) ↦ rw (p, publish_to) h
      ]

  pub publish_exported_snapshot-Keeps : Keeps (publish_exported_snapshot w)
  unfolding publish_exported_snapshot
  publish_exported_snapshot-Keeps st te r h = elim (Option-cases w.observer) [
    | inl p ↦ rw p h
    | inr (o, p) ↦ rw p (publish_to-Keeps o.on_exported_snapshot st te r h)
  ]
