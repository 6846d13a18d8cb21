-- ===== src/Service/Lifecycle.antt =====
-- Every sequence of operations on the queue store: the invariant, and what becomes of one record.
use ai_arena.Prelude.{
  ℕ, String, Bool, true, false, List, [], ◌∷◌, none, some, lookup, ◌≡◌, refl, ap, ◌∙◌, arith, inl,
  inr,
}
use ai_arena.Service.Records.{
  MatchSubmission, QueueRecord, LifecycleState, completed, failed, canceled, validate_transition,
}
use ai_arena.Service.Store.{
  Store, enqueue, claim, heartbeat, recover_one, recover_expired, update, promote, cancel_queued,
}
use ai_arena.Service.Evolution.{
  Evolves, Kept, enqueue-Kept, claim-Kept, heartbeat-Kept, recover_one-Kept, update-Kept,
  promote-Kept, cancel_queued-Kept,
}
use ai_arena.Service.Soundness.{IsSound, enqueue-IsSound, claim-IsSound}
use ai_arena.Service.Preservation.{
  heartbeat-IsSound, recover_expired-IsSound, update-IsSound, promote-IsSound,
  cancel_queued-IsSound,
}

-- The calls of the store that may change it, with the time each reads.
pub data Operation : Type 0 where
  enqueuing : MatchSubmission → Operation
  claiming : String → ℕ → Operation
  beating : String → String → ℕ → Operation
  recovering : ℕ → List String → Operation
  updating : QueueRecord → ℕ → Operation
  promoting : String → Operation
  canceling : String → Operation

abbrev pub perform : Operation → Store → Store
perform (enqueuing m) s = (enqueue m s).1
perform (claiming worker now) s = (claim worker now s).1
perform (beating run worker now) s = (heartbeat run worker now s).1
perform (recovering now visit) s = (recover_expired now visit s).1
perform (updating next now) s = (update next now s).1
perform (promoting run) s = (promote run s).1
perform (canceling run) s = (cancel_queued run s).1

abbrev pub perform_all : List Operation → Store → Store
perform_all [] s = s
perform_all (o ∷ os) s = perform_all os (perform o s)

-- Every operation keeps the invariant of the store: records stand under their run id, each once in
-- the list of runs, and every queued run is in the order, so that none is lost.
pub perform-IsSound : (o : Operation) (s : Store) → IsSound s → IsSound (perform o s)
perform-IsSound (enqueuing m) s p = enqueue-IsSound m s p
perform-IsSound (claiming worker now) s p = claim-IsSound worker now s p
perform-IsSound (beating run worker now) s p = heartbeat-IsSound run worker now s p
perform-IsSound (recovering now visit) s p = recover_expired-IsSound now visit s p
perform-IsSound (updating next now) s p = update-IsSound next now s p
perform-IsSound (promoting run) s p = promote-IsSound run s p
perform-IsSound (canceling run) s p = cancel_queued-IsSound run s p

pub perform_all-IsSound : (os : List Operation) (s : Store) → IsSound s → IsSound (perform_all os s)
perform_all-IsSound [] s p = p
perform_all-IsSound (o ∷ os) s p = perform_all-IsSound os (perform o s) (perform-IsSound o s p)

-- Changes of one record, one after the other.
pub data Reaches : QueueRecord → QueueRecord → Type 0 where
  stay : {r : QueueRecord} → Reaches r r
  change : {r m t : QueueRecord} → Evolves r m → Reaches m t → Reaches r t

Reaches-trans : {r m t : QueueRecord} → Reaches r m → Reaches m t → Reaches r t
Reaches-trans stay q = q
Reaches-trans (change e p) q = change e (Reaches-trans p q)

-- The store has the record of `j`, at the end of changes of `x`.
abbrev pub Remains : String → QueueRecord → Store → Type 0
Remains j x s = (x' : QueueRecord) × (lookup j s.records ≡ some x') × Reaches x x'

Remains-Kept : (j : String) (x : QueueRecord) (s : Store) → Kept j x s → Remains j x s
unfolding Kept
Remains-Kept j x s (x', e, v) = (x', e, change v stay)

Remains-recover_expired :
    (now : ℕ) (visit : List String) (j : String) (x : QueueRecord) (s : Store)
    → lookup j s.records ≡ some x
    → Remains j x (recover_expired now visit s).1
unfolding recover_expired Kept
Remains-recover_expired now [] j x s e = (x, e, stay)
Remains-recover_expired now (id ∷ visit) j x s e =
    let (m, f, v) = recover_one-Kept j x s e now id in
    let (t, g, w) = Remains-recover_expired now visit j m (recover_one now id s).1 f in
    (t, g, change v w)

Remains-perform :
    (o : Operation) (j : String) (x : QueueRecord) (s : Store)
    → lookup j s.records ≡ some x
    → Remains j x (perform o s)
Remains-perform (enqueuing m) j x s e = Remains-Kept j x _ (enqueue-Kept j x s e m)
Remains-perform (claiming w now) j x s e = Remains-Kept j x _ (claim-Kept j x s e w now)
Remains-perform (beating run w now) j x s e = Remains-Kept j x _ (heartbeat-Kept j x s e run w now)
Remains-perform (recovering now visit) j x s e = Remains-recover_expired now visit j x s e
Remains-perform (updating next now) j x s e = Remains-Kept j x _ (update-Kept j x s e next now)
Remains-perform (promoting run) j x s e = Remains-Kept j x _ (promote-Kept j x s e run)
Remains-perform (canceling run) j x s e = Remains-Kept j x _ (cancel_queued-Kept j x s e run)

-- No sequence of operations loses a record, and each change that one makes of its record goes along
-- a transition that ValidateTransition allows, or back to the queue from a state that a lease can
-- expire in; a completion time that is set stays.
pub perform_all-Remains :
    (os : List Operation) (j : String) (x : QueueRecord) (s : Store)
    → lookup j s.records ≡ some x
    → Remains j x (perform_all os s)
perform_all-Remains [] j x s e = (x, e, stay)
perform_all-Remains (o ∷ os) j x s e =
    let (m, f, v) = Remains-perform o j x s e in
    let (t, g, w) = perform_all-Remains os j m (perform o s) f in (t, g, Reaches-trans v w)

abbrev pub is_terminal : LifecycleState → Bool
is_terminal completed = true
is_terminal failed = true
is_terminal canceled = true
is_terminal _ = false

terminal_step :
    (a b : LifecycleState) → is_terminal a ≡ true → validate_transition a b ≡ none → b ≡ a
terminal_step a b h v = ground (arith, h, v)

-- A terminal record keeps its state through every change.
terminal-Reaches :
    (x x' : QueueRecord)
    → Reaches x x'
    → is_terminal x.state ≡ true
    → (x'.state ≡ x.state) × ((t : ℕ) → x.completed_at ≡ some t → x'.completed_at ≡ some t)
unfolding Evolves
terminal-Reaches x x' stay h = (refl, λ t c. c)
terminal-Reaches x x' (change {m} (inl v, c) p) h =
    let same = terminal_step x.state m.state h v in
    let (state, time) = terminal-Reaches m x' p (ap is_terminal same ∙ h) in
    (state ∙ same, λ t e. time t (c t e))
terminal-Reaches x x' (change (inr (flight, _), c) p) h = ground (arith, h, flight)

-- A completed, failed or canceled record is there after every sequence of operations, in the same
-- state, and with the completion time it had, if it had one.
pub terminal_stays :
    (os : List Operation) (j : String) (x : QueueRecord) (s : Store)
    → lookup j s.records ≡ some x
    → is_terminal x.state ≡ true
    → (x' : QueueRecord) × (lookup j (perform_all os s).records ≡ some x')
      × (x'.state ≡ x.state)
      × ((t : ℕ) → x.completed_at ≡ some t → x'.completed_at ≡ some t)
terminal_stays os j x s e h =
    let (x', f, w) = perform_all-Remains os j x s e in
    let (state, time) = terminal-Reaches x x' w h in (x', f, state, time)
