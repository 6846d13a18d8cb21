-- ===== src/Janken/Normal.antt =====
-- What the normalization of an action guarantees.
use ai_arena.Prelude.{
  String, true, none, some, ◌≡◌, ◌≢◌, ◌⊎◌, inl, inr, arith, eq_iff, Option-cases,
}
use ai_arena.Json.{RawMessage, struct_fields, text_field, same_name, assign_text}
use ai_arena.Contract.{ActionStatus, DecisionRequest, accepted, no_action, no_reason}
use ai_arena.Contract.Check.{validate_action_status}
use ai_arena.Janken.Rules.{is_playable_action}
use ai_arena.Janken.Master.{normalize_action, playable, decode_action, played, encode_action}

playable_sound :
    (raw : RawMessage) (act : String) → playable raw ≡ some act → is_playable_action act ≡ true
unfolding playable
playable_sound raw act h = ground arith

-- The encoding of a playable action decodes to it.
playable-encode_action :
    (act : String) → is_playable_action act ≡ true → playable (encode_action act) ≡ some act
unfolding playable decode_action struct_fields text_field same_name assign_text
playable-encode_action act h = ground (arith, h)

-- Normalizing keeps what a status plays, and a second time it changes nothing.
pub normalize_action_idem :
    (req : DecisionRequest) (s : ActionStatus)
    → (played (normalize_action req s) ≡ played s)
      × (normalize_action req (normalize_action req s) ≡ normalize_action req s)
unfolding normalize_action played
normalize_action_idem req s = elim (Option-cases (playable s.action)) [
  | inl e ↦ (ground (arith, e), ground (arith, e))
  | inr (act, e) ↦
      let back = playable-encode_action act (playable_sound s.action act e) in
      (ground (arith, e, back), ground (arith, e, back))
]

-- A status of the two known kinds, of a named player, whose accepted form carries no failure reason,
-- is normalized to one that ValidateActionStatus passes.
pub normalize_action_valid :
    (req : DecisionRequest) (s : ActionStatus)
    → req.player_id ≢ ""
    → s.player_id ≢ ""
    → (s.action_status ≡ accepted) × (s.failure_reason ≡ no_reason) ⊎ (s.action_status ≡ no_action)
    → validate_action_status (normalize_action req s) ≡ none
unfolding normalize_action validate_action_status
normalize_action_valid req s p q k = ground (arith, eq_iff req.player_id "", eq_iff s.player_id "")
