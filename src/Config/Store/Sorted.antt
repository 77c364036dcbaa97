-- ===== src/Config/Store/Sorted.antt =====
-- `json.dump(…, sort_keys=True)`, as core/config/_file_io.py and components/registry.py write a
-- file: the keys of every dict in order of their characters, at any depth.
use Prim.Native.Nat.{Ordering}
use Prim.Native.String.{compare}
use mathlib.Core.Option
use lucid_agent_core.Prelude.{
  String, ◌≡◌, refl, Bool, true, false, some, List, [], ◌∷◌, arith, ◌==◌, eq_iff, if◌then◌else◌,
}
use lucid_agent_core.Prelude.Json.{
  Value, null, bool, int, float, special, str, list, dict, Items, nil, cons, Fields, end, field,
  get,
}

abbrev pub text_le : String → String → Bool
text_le s t = elim (compare s t) [ Ordering.gt ↦ false | _ ↦ true ]

-- `sorted` on texts
insert_text : String → List String → List String
insert_text s [] = s ∷ []
insert_text s (t ∷ ts) = if text_le s t then s ∷ t ∷ ts else t ∷ insert_text s ts

unfoldable pub sorted_texts : List String → List String
unfolding insert_text
sorted_texts [] = []
sorted_texts (s ∷ ss) = insert_text s (sorted_texts ss)

unfoldable pub insert_field : String → Value → Fields → Fields
insert_field k v end = field k v end
insert_field k v (field j w d) =
    if text_le k j then field k v (field j w d) else field j w (insert_field k v d)

unfoldable mutual
  pub sorted_value : Value → Value
  sorted_value (list xs) = list (sorted_items xs)
  sorted_value (dict d) = dict (sorted_fields d)
  sorted_value null = null
  sorted_value (bool b) = bool b
  sorted_value (int z) = int z
  sorted_value (float m k) = float m k
  sorted_value (special x) = special x
  sorted_value (str s) = str s

  pub sorted_items : Items → Items
  sorted_items nil = nil
  sorted_items (cons x xs) = cons (sorted_value x) (sorted_items xs)

  pub sorted_fields : Fields → Fields
  sorted_fields end = end
  sorted_fields (field k v d) = insert_field k (sorted_value v) (sorted_fields d)

get-insert_field :
    (k j : String) (v : Value) (d : Fields)
    → get j (insert_field k v d) ≡ (if k == j then some v else get j d)
unfolding get insert_field
get-insert_field k j v end = refl
get-insert_field k j v (field i w d) =
    ground (arith, eq_iff k j, eq_iff i k, eq_iff k i, eq_iff i j, get-insert_field k j v d)

-- Sorting the keys changes no lookup, but for the order within a nested value.
pub get-sorted_fields :
    (k : String) (d : Fields) → get k (sorted_fields d) ≡ Option.map sorted_value (get k d)
unfolding get sorted_fields
get-sorted_fields k end = refl
get-sorted_fields k (field j v d) = rw get-insert_field (ground (arith, get-sorted_fields k d))
