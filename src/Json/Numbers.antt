-- ===== src/Json/Numbers.antt =====
-- encoding/json: the decoding of int fields, and of maps and lists of ints. A pair holds the value
-- and whether all went well: an error does not stop the decoding.
use ai_arena.Prelude.{String, Bool, true, false, ◌&&◌, List, [], ◌∷◌, if◌then◌else◌, Dict, insert}
use ai_arena.Prelude.Int.{ℤ, pos}
use ai_arena.Protocol.{fits_int}
use ai_arena.Json.{
  Json, null, number, array, object, Fields, end, field, Items, nil, cons, same_name,
}

unfoldable pub assign_int : ℤ × Bool → Json → ℤ × Bool
assign_int (old, fine) (number i) = if fits_int i then (i, fine) else (old, false)
assign_int (old, fine) null = (old, fine)
assign_int (old, fine) _ = (old, false)

unfoldable pub int_field : String → ℤ × Bool → Fields → ℤ × Bool
unfolding same_name assign_int
int_field name acc end = acc
int_field name acc (field k v fs) =
    int_field name (if same_name k name then assign_int acc v else acc) fs

-- The entries of an object, put into a map[string]int.
unfoldable pub int_entries : Dict ℤ × Bool → Fields → Dict ℤ × Bool
unfolding assign_int
int_entries acc end = acc
int_entries (m, fine) (field k v fs) =
    let (i, good) = assign_int (pos 0, fine) v in int_entries (insert k i m, good) fs

unfoldable pub assign_ints : Dict ℤ × Bool → Json → Dict ℤ × Bool
unfolding int_entries
assign_ints (old, fine) (object fs) = int_entries (old, fine) fs
assign_ints (old, fine) null = ([], fine)
assign_ints (old, fine) _ = (old, false)

unfoldable pub ints_field : String → Dict ℤ × Bool → Fields → Dict ℤ × Bool
unfolding same_name assign_ints
ints_field name acc end = acc
ints_field name acc (field k v fs) =
    ints_field name (if same_name k name then assign_ints acc v else acc) fs

-- The elements of an array, as a []int.
unfoldable pub int_items : Items → List ℤ × Bool
unfolding assign_int
int_items nil = ([], true)
int_items (cons v vs) =
    let (i, good) = assign_int (pos 0, true) v in
    let (is, fine) = int_items vs in (i ∷ is, good && fine)

unfoldable pub assign_int_list : List ℤ × Bool → Json → List ℤ × Bool
unfolding int_items
assign_int_list (old, fine) (array vs) = let (is, good) = int_items vs in (is, fine && good)
assign_int_list (old, fine) null = ([], fine)
assign_int_list (old, fine) _ = (old, false)

unfoldable pub int_list_field : String → List ℤ × Bool → Fields → List ℤ × Bool
unfolding same_name assign_int_list
int_list_field name acc end = acc
int_list_field name acc (field k v fs) =
    int_list_field name (if same_name k name then assign_int_list acc v else acc) fs
