-- ===== src/Prelude/Trims.antt =====
-- Trimming twice is trimming once.
use Prim.Native.Char.{Char, code}
use Prim.Native.String.{String}
use mathlib.Core.Path.{◌≡◌, refl, sym, ap, ◌∙◌}
use mathlib.Core.Logic.{inl, inr}
use mathlib.Core.Bool.{false, ◌&&◌}
use ai_arena.Prelude.Tests.{Bool-cases}
use ai_arena.Prelude.Text.{is_space, is_empty, trim_left, trim_right, trim_space}

trim_right_idem : (s : String) → trim_right (trim_right s) ≡ trim_right s
unfolding trim_right
trim_right_idem String.[] = refl
trim_right_idem (String.◌∷◌ c s) =
    elim (Bool-cases (is_empty (trim_right s) && is_space (code c))) [
      | inl e ↦ rw e refl
      | inr e ↦ rw (e, trim_right_idem s, e) refl
    ]

trim_left_stays :
    (c : Char) (s : String)
    → is_space (code c) ≡ false
    → trim_left (String.◌∷◌ c s) ≡ String.◌∷◌ c s
unfolding trim_left trim_right
trim_left_stays c s e = rw e refl

trim_right_keeps :
    (c : Char) (s : String)
    → is_space (code c) ≡ false
    → trim_right (String.◌∷◌ c s) ≡ String.◌∷◌ c (trim_right s)
unfolding trim_right
trim_right_keeps c s e = elim (Bool-cases (is_empty (trim_right s))) [
  | inl f ↦ rw (e, f) refl
  | inr f ↦ rw (e, f) refl
]

trim_left-trim_right :
    (s : String) → trim_left (trim_right (trim_left s)) ≡ trim_right (trim_left s)
unfolding trim_left trim_right
trim_left-trim_right String.[] = refl
trim_left-trim_right (String.◌∷◌ c s) = elim (Bool-cases (is_space (code c))) [
  | inl e ↦ rw e (trim_left-trim_right s)
  | inr e ↦
      let whole = trim_left_stays c s e in
      let kept = trim_right_keeps c s e in
      ap (λ t. trim_left (trim_right t)) whole
      ∙ ap trim_left kept
      ∙ trim_left_stays c (trim_right s) e
      ∙ sym (ap trim_right whole ∙ kept)
]

pub trim_space_idem : (s : String) → trim_space (trim_space s) ≡ trim_space s
unfolding trim_space
trim_space_idem s = ap trim_right (trim_left-trim_right s) ∙ trim_right_idem (trim_left s)
