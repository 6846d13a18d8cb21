-- ===== src/Json.antt =====
-- What the program uses of encoding/json: values, raw messages, and the decoding of structs.
-- Insignificant white space and the spelling of numbers are not kept.
pub mod Numbers
use ai_arena.Prelude.{
  ℕ, ◌-◌, String, Bool, true, false, ◌&&◌, List, [], ◌∷◌, leb, ◌==◌, if◌then◌else◌, Dict, text_lt,
  Option, none, some,
}
use ai_arena.Prelude.Int.{ℤ}
use Prim.Native.Char.{code}

mutual
  pub data Json : Type 0 where
    null : Json
    boolean : Bool → Json
    -- A number that is an integer literal, and any other number.
    number : ℤ → Json
    fraction : String → Json
    text : String → Json
    array : Items → Json
    object : Fields → Json

  pub data Items : Type 0 where
    nil : Items
    cons : Json → Items → Items

  pub data Fields : Type 0 where
    end : Fields
    field : String → Json → Fields → Fields

-- json.RawMessage: no bytes, bytes that are no JSON value, or a value.
pub data RawMessage : Type 0 where
  no_bytes : RawMessage
  malformed_bytes : RawMessage
  value : Json → RawMessage

-- len(raw) == 0
abbrev pub is_no_bytes : RawMessage → Bool
is_no_bytes no_bytes = true
is_no_bytes malformed_bytes = false
is_no_bytes (value j) = false

-- The least rune of a letter's fold orbit, for the letters that occur in field names.
fold_rune : ℕ → ℕ
fold_rune c =
    if leb b'a' c && leb c b'z'
    then c - 32
    else if c == 0x17f
    then b'S'
    else if c == 0x212a
    then b'K'
    else c

-- A key selects the field whose name it folds to.
unfoldable pub same_name : String → String → Bool
unfolding fold_rune
same_name String.[] String.[] = true
same_name String.[] (String.◌∷◌ d t) = false
same_name (String.◌∷◌ c s) String.[] = false
same_name (String.◌∷◌ c s) (String.◌∷◌ d t) =
    let rest = same_name s t in fold_rune (code c) == fold_rune (code d) && rest

-- json.Unmarshal into a struct: the fields to assign; null assigns none.
unfoldable pub struct_fields : RawMessage → Option Fields
struct_fields (value (object fs)) = some fs
struct_fields (value null) = some end
struct_fields _ = none

-- Assignment to a string field; a value of another kind is an error that does not stop the decoding.
unfoldable pub assign_text : String × Bool → Json → String × Bool
assign_text (old, fine) (text t) = (t, fine)
assign_text (old, fine) null = (old, fine)
assign_text (old, fine) _ = (old, false)

-- The string field of a name, which the last key decides.
unfoldable pub text_field : String → String × Bool → Fields → String × Bool
unfolding same_name assign_text
text_field name acc end = acc
text_field name acc (field k v fs) =
    text_field name (if same_name k name then assign_text acc v else acc) fs

-- The json.RawMessage field of a name.
unfoldable pub raw_field : String → RawMessage → Fields → RawMessage
unfolding same_name
raw_field name acc end = acc
raw_field name acc (field k v fs) = raw_field name (if same_name k name then value v else acc) fs

-- json.Marshal writes a map by its sorted keys.
unfoldable pub insert_field : String → Json → Fields → Fields
unfolding text_lt
insert_field k v end = field k v end
insert_field k v (field j w fs) =
    let rest = insert_field k v fs in
    if text_lt k j then field k v (field j w fs) else field j w rest

unfoldable pub map_fields {ℓ} : {V : Type ℓ} → (V → Json) → Dict V → Fields
unfolding insert_field
map_fields f [] = end
map_fields f ((k, v) ∷ m) = insert_field k (f v) (map_fields f m)

unfoldable pub list_items {ℓ} : {V : Type ℓ} → (V → Json) → List V → Items
list_items f [] = nil
list_items f (v ∷ vs) = cons (f v) (list_items f vs)
