-- ===== src/Mesh/Toy.antt =====
-- A toy JSON library for the tests: its texts are names of documents. An array is kept as an object
-- whose keys do not matter.
use esp32_agent_mesh.Prelude.{
  if◌then◌else◌, Bool-cases, Bytes, codes, str_eq, same_name, ◌≡◌, refl, inl, inr, Bool, true,
  false, Option, none, some, List, [], ◌∷◌,
}
use esp32_agent_mesh.Prelude.Int.{ℤ}
use esp32_agent_mesh.Mesh.Json.{JsonApi}
use esp32_agent_mesh.Mesh.Rows.{
  Value, text, number, truth, tree, Row, find_value, Shows, ShowsField, IsRead,
}

mutual
  pub data Toy : Type 0 where
    str : Bytes → Toy
    num : ℤ → Toy
    bool : Bool → Toy
    obj : Fields → Toy
    arr : Fields → Toy

  pub data Fields : Type 0 where
    end : Fields
    field : Bytes → Toy → Fields → Fields

unfoldable pub find_field : Fields → Bytes → Option Toy
find_field end key = none
find_field (field k v fs) key = if same_name k key then some v else find_field fs key

abbrev pub toy_elements : Fields → List Toy
toy_elements end = []
toy_elements (field k v fs) = v ∷ toy_elements fs

unfoldable pub find_doc : List (Bytes × Toy) → Bytes → Option Toy
find_doc [] name = none
find_doc ((n, doc) ∷ docs) name = if str_eq n name then some doc else find_doc docs name

abbrev pub toy_item : Toy → Bytes → Option Toy
toy_item (obj fs) key = find_field fs key
toy_item _ key = none

abbrev pub toy : List (Bytes × Toy) → JsonApi
toy docs = record {
  Json = Toy;
  parse = find_doc docs;
  is_object = λ v. elim v [ obj fs ↦ true | _ ↦ false ];
  item = toy_item;
  string_value = λ v. elim v [ str s ↦ some s | _ ↦ none ];
  int_value = λ v. elim v [ num n ↦ some n | _ ↦ none ];
  is_true = λ v. elim v [ bool b ↦ b | _ ↦ false ];
  print = λ v. some (codes "{}");
}

abbrev pub toy_value : Value Toy → Toy
toy_value (text s) = str s
toy_value (number n) = num n
toy_value (truth b) = bool b
toy_value (tree t) = t

abbrev pub toy_fields : Row Toy → Fields
toy_fields [] = end
toy_fields ((k, v) ∷ row) = field k (toy_value v) (toy_fields row)

Shows-value : (docs : List (Bytes × Toy)) (v : Value Toy) → Shows (toy docs) v (toy_value v)
Shows-value docs (text s) = refl
Shows-value docs (number n) = λ small. refl
Shows-value docs (truth b) = refl
Shows-value docs (tree t) = refl

ShowsField-row :
    (docs : List (Bytes × Toy)) (row : Row Toy) (key : Bytes)
    → ShowsField (toy docs) (find_value row key) (find_field (toy_fields row) key)
unfolding find_field
ShowsField-row docs [] key = refl
ShowsField-row docs ((k, v) ∷ row) key = elim (Bool-cases (same_name k key)) [
  | inl e ↦ rw e (toy_value v, refl, Shows-value docs v)
  | inr e ↦ rw e (ShowsField-row docs row key)
]

-- A document made from a row is read as the row.
pub toy-IsRead :
    (docs : List (Bytes × Toy)) (row : Row Toy) (name : Bytes)
    → find_doc docs name ≡ some (obj (toy_fields row))
    → IsRead (toy docs) row name
toy-IsRead docs row name h = record {
  root = obj (toy_fields row);
  parsed = h;
  object = refl;
  shown = ShowsField-row docs row;
}
