-- ===== src/Echo/Normal.antt =====
-- internal/games/echo/echo.go: the action that is accepted at a turn.
use ai_arena.Prelude.{
  ℕ, ◌+◌, String, Bool, true, false, [], Option, none, some, ◌≡◌, refl, ap, arith, Bool-cases, inl,
  inr, ◌⊎◌, ◌≢◌, if◌then◌else◌, Dict,
}
use ai_arena.Prelude.Ints.{same_int_lem}
use ai_arena.Prelude.Int.{ℤ, pos, is_positive, same_int}
use ai_arena.Json.{no_bytes, number, object, field, end, struct_fields, same_name, map_fields}
use ai_arena.Protocol.{fits_int}
use ai_arena.Json.Numbers.{int_field, ints_field, assign_int}
use ai_arena.Contract.{
  Player, ActionStatus, DecisionRequest, is_accepted, no_action, illegal_action,
}
use ai_arena.Echo.Data.{Master}
use ai_arena.Echo.Steps.{
  expected_now, request_for, visible_raw, decode_expected, expected_for_turn, decode_echo, illegal,
  normalize_action,
}

if_some :
    (well : Bool) (x : ℤ)
    → ((if well then some x else none) ≡ none) ⊎ ((if well then some x else none) ≡ some x)
if_some true x = inr refl
if_some false x = inl refl

assigned :
    (n : ℕ) (fine : Bool)
    → ((assign_int (pos 0, fine) (number (pos n))).0 ≡ pos n)
      ⊎ ((assign_int (pos 0, fine) (number (pos n))).0 ≡ pos 0)
unfolding assign_int
assigned n fine = elim (Bool-cases (fits_int (pos n))) [ inl e ↦ inl (rw e) | inr e ↦ inr (rw e) ]

-- A visible state is decoded to the number it was made with, to zero, or not at all.
decode_expected-visible_raw :
    (turn expected : ℕ) (score : Dict ℤ)
    → (x : ℤ) × ((decode_expected (visible_raw turn expected score) ≡ none)
        ⊎ (decode_expected (visible_raw turn expected score) ≡ some x))
      × ((x ≡ pos expected) ⊎ (x ≡ pos 0))
unfolding decode_expected visible_raw struct_fields int_field same_name assign_int ints_field
decode_expected-visible_raw turn expected score =
    let read =
      assign_int (pos 0, (assign_int (pos 0, true) (number (pos turn))).1)
        (number (pos expected)) in
    let scores =
      ints_field "score" ([], read.1) (field "score" (object (map_fields number score)) end) in
    (
      read.0,
      if_some scores.1 read.0,
      assigned expected (assign_int (pos 0, true) (number (pos turn))).1,
    )

expected_of_decoded :
    (m : Master) (req : DecisionRequest) (x : ℤ)
    → (decode_expected req.visible_state ≡ none) ⊎ (decode_expected req.visible_state ≡ some x)
    → (x ≡ pos (expected_now m)) ⊎ (x ≡ pos 0)
    → expected_for_turn m req ≡ pos (expected_now m)
unfolding expected_for_turn
expected_of_decoded m req x (inl d) e = rw (d, expected_for_turn)
expected_of_decoded m req x (inr d) (inr z) = rw (d, z, expected_for_turn)
expected_of_decoded m req x (inr d) (inl z) =
    elim (Bool-cases (is_positive (pos (expected_now m)))) [
      | inl e ↦ rw (d, z, e, expected_for_turn)
      | inr e ↦ rw (d, z, e, expected_for_turn)
    ]

expected_for_turn-request_for :
    (m : Master) (p : Player) → expected_for_turn m (request_for m p) ≡ pos (expected_now m)
unfolding request_for
expected_for_turn-request_for m p =
    let (x, decoded, small) =
      decode_expected-visible_raw (m.resolved + 1) (expected_now m) m.score in
    expected_of_decoded m (request_for m p) x decoded small

normalize_decoded :
    (m : Master) (req : DecisionRequest) (s : ActionStatus) (echo : Option ℤ) (n : ℕ)
    → is_accepted s.action_status ≡ true
    → decode_echo s.action ≡ echo
    → expected_for_turn m req ≡ pos n
    → ((echo ≡ some (pos n)) × (normalize_action m req s ≡ s))
      ⊎ ((echo ≢ some (pos n)) × (normalize_action m req s ≡ illegal req.player_id))
unfolding normalize_action
normalize_decoded m req s none n h d e = inr (ground arith, rw (h, d))
normalize_decoded m req s (some i) n h d e = elim (Bool-cases (same_int i (pos n))) [
  | inl t ↦ inl (ap some ((same_int_lem i (pos n)).0 t), rw (h, d, e, t))
  | inr f ↦ inr (ground (arith, f, (same_int_lem i (pos n)).1), rw (h, d, e, f))
]

-- The status of no action for an illegal one.
abbrev pub refused : String → ActionStatus
refused player_id = record {
  player_id = player_id;
  action_status = no_action;
  failure_reason = illegal_action;
  action = no_bytes;
}

-- A status on a request of the present step that is not accepted keeps its player, its status and
-- its reason and loses its action. One that is accepted is unchanged when its action decodes to the
-- number that the match expects at this turn, and is otherwise turned into no action for an illegal
-- one.
pub normalize_action-request_for :
    (m : Master) (p : Player) (s : ActionStatus)
    → ((is_accepted s.action_status ≡ false)
        × (normalize_action m (request_for m p) s ≡ record s { action = no_bytes }))
      ⊎ (((is_accepted s.action_status ≡ true)
            × (decode_echo s.action ≡ some (pos (expected_now m)))
            × (normalize_action m (request_for m p) s ≡ s))
          ⊎ ((is_accepted s.action_status ≡ true)
              × (decode_echo s.action ≢ some (pos (expected_now m)))
              × (normalize_action m (request_for m p) s ≡ refused p.player_id)))
unfolding request_for normalize_action
normalize_action-request_for m p s = elim (Bool-cases (is_accepted s.action_status)) [
  | inr n ↦ inl (n, rw n)
  | inl h ↦ inr (
      accepted_cases h (
        normalize_decoded m (request_for m p) s (decode_echo s.action) (expected_now m) h refl
          (expected_for_turn-request_for m p)))
]
  where
    accepted_cases :
        is_accepted s.action_status ≡ true
        → ((decode_echo s.action ≡ some (pos (expected_now m)))
            × (normalize_action m (request_for m p) s ≡ s))
          ⊎ ((decode_echo s.action ≢ some (pos (expected_now m)))
              × (normalize_action m (request_for m p) s ≡ refused p.player_id))
        → ((is_accepted s.action_status ≡ true)
            × (decode_echo s.action ≡ some (pos (expected_now m)))
            × (normalize_action m (request_for m p) s ≡ s))
          ⊎ ((is_accepted s.action_status ≡ true)
              × (decode_echo s.action ≢ some (pos (expected_now m)))
              × (normalize_action m (request_for m p) s ≡ refused p.player_id))
    accepted_cases h (inl a) = inl (h, a.0, a.1)
    accepted_cases h (inr a) = inr (h, a.0, a.1)
