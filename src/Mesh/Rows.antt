-- ===== src/Mesh/Rows.antt =====
-- Texts that the mesh code makes with cJSON: an object is built key by key and printed.
use esp32_agent_mesh.Prelude.{
  if◌then◌else◌, Bytes, same_name, ◌≡◌, refl, subst, Bool, true, false, Option, none, some, List,
  [], ◌∷◌, arith,
}
use esp32_agent_mesh.Prelude.Int.{ℤ, pos, negsuc, ◌≤ℤ◌, leb_ℤ}
use esp32_agent_mesh.Mesh.Json.{
  JsonApi, parse_object, string_in, int_in, json_string, json_int, json_bool,
}

pub data Value (J : Type 0) : Type 0 where
  text : Bytes → Value J
  number : ℤ → Value J
  truth : Bool → Value J
  tree : J → Value J

abbrev pub Row : Type 0 → Type 0
Row J = List (Bytes × Value J)

-- The value that `cJSON_GetObjectItem` finds, which takes the first of the keys that are equal up to
-- the case of letters.
abbrev pub find_value : {J : Type 0} → Row J → Bytes → Option (Value J)
find_value [] key = none
find_value ((k, v) ∷ row) key = if same_name k key then some v else find_value row key

-- `json_add_optional_string`, and other fields that are only added where they are not empty.
abbrev pub add_unless_empty : {J : Type 0} → Bytes → Bytes → Row J → Row J
add_unless_empty key [] row = row
add_unless_empty key (b ∷ bs) row = (key, text (b ∷ bs)) ∷ row

pub find_add_other :
    {J : Type 0} (key s key' : Bytes) (row : Row J)
    → same_name key key' ≡ false
    → find_value (add_unless_empty key s row) key' ≡ find_value row key'
find_add_other key [] key' row h = refl
find_add_other key (b ∷ bs) key' row h = rw h

-- Numbers that an `int` holds: `valueint` is bounded by them.
abbrev pub IsInt : ℤ → Type 0
IsInt n = (leb_ℤ (negsuc 2147483647) n ≡ true) × (leb_ℤ n (pos 2147483647) ≡ true)

pub small-IsInt : (n : ℤ) → pos 0 ≤ℤ n → n ≤ℤ pos 30000 → IsInt n
small-IsInt (pos n) l h = ground (arith, h)
small-IsInt (negsuc n) l h = absurd (omega (arith, l))

module _ (api : JsonApi) where
  open api use {Json, parse, is_object, item, string_value, int_value, is_true}

  -- What an item of a parsed object is to a value that was added under its key.
  abbrev pub Shows : Value Json → Json → Type 0
  Shows (text s) j = string_value j ≡ some s
  Shows (number n) j = IsInt n → int_value j ≡ some n
  Shows (truth b) j = is_true j ≡ b
  Shows (tree t) j = j ≡ t

  abbrev pub ShowsField : Option (Value Json) → Option Json → Type 0
  ShowsField none o = o ≡ none
  ShowsField (some v) o = (j : Json) × (o ≡ some j) × Shows v j

  -- The library reads a text that it printed as it documents.
  pub record IsRead (row : Row Json) (printed : Bytes) : Type 0 where
    pub root : Json
    pub parsed : parse printed ≡ some root
    pub object : is_object root ≡ true
    pub shown : (key : Bytes) → ShowsField (find_value row key) (item root key)

  pub IsRead-parse_object :
      (row : Row Json) (printed : Bytes) (r : IsRead row printed)
      → parse_object api printed ≡ some r.root
  unfolding parse_object
  IsRead-parse_object row printed r = rw (r.parsed, parse_object, r.object)

  -- What the readers of fields find.
  pub json_string-text :
      (row : Row Json) (printed : Bytes) (r : IsRead row printed) (key s : Bytes)
      → find_value row key ≡ some (text s)
      → json_string api r.root key ≡ some s
  unfolding json_string
  json_string-text row printed r key s e =
      let (j, at, is) = subst (λ v. ShowsField v (item r.root key)) e (r.shown key) in
      rw (at, string_in, is)

  pub json_string-none :
      (row : Row Json) (printed : Bytes) (r : IsRead row printed) (key : Bytes)
      → find_value row key ≡ none
      → json_string api r.root key ≡ none
  unfolding json_string
  json_string-none row printed r key e =
      let at = subst (λ v. ShowsField v (item r.root key)) e (r.shown key) in rw (at, string_in)

  pub json_int-number :
      (row : Row Json) (printed : Bytes) (r : IsRead row printed) (key : Bytes) (n d : ℤ)
      → find_value row key ≡ some (number n)
      → IsInt n
      → json_int api r.root key d ≡ n
  unfolding json_int
  json_int-number row printed r key n d e small =
      let (j, at, is) = subst (λ v. ShowsField v (item r.root key)) e (r.shown key) in
      rw (json_int, at, int_in, is small)

  pub json_bool-truth :
      (row : Row Json) (printed : Bytes) (r : IsRead row printed) (key : Bytes) (b d : Bool)
      → find_value row key ≡ some (truth b)
      → json_bool api r.root key d ≡ b
  unfolding json_bool
  json_bool-truth row printed r key b d e =
      let (j, at, is) = subst (λ v. ShowsField v (item r.root key)) e (r.shown key) in
      rw (json_bool, at, is)

  pub item-tree :
      (row : Row Json) (printed : Bytes) (r : IsRead row printed) (key : Bytes) (t : Json)
      → find_value row key ≡ some (tree t)
      → item r.root key ≡ some t
  item-tree row printed r key t e =
      let (j, at, is) = subst (λ v. ShowsField v (item r.root key)) e (r.shown key) in rw (at, is)
