-- ===== src/Mesh/Json.antt =====
-- What the mesh code uses of cJSON (main/cJSON.h, a copy of the library).
use esp32_agent_mesh.Prelude.{if◌then◌else◌, Bytes, Bool, Option, none, some, []}
use esp32_agent_mesh.Prelude.Int.{ℤ}

-- Nothing is assumed of the library: the theorems hold of whatever it parses and prints.
pub record JsonApi : Type 1 where
  pub Json : Type 0
  -- `cJSON_ParseWithLength`, or `cJSON_Parse` on a whole text: none where it returns a null pointer.
  pub parse : Bytes → Option Json
  -- `cJSON_IsObject`
  pub is_object : Json → Bool
  -- `cJSON_GetObjectItem`
  pub item : Json → Bytes → Option Json
  -- `valuestring`, of an item for which `cJSON_IsString` holds.
  pub string_value : Json → Option Bytes
  -- `valueint`, of an item for which `cJSON_IsNumber` holds.
  pub int_value : Json → Option ℤ
  -- `cJSON_IsTrue`
  pub is_true : Json → Bool
  -- `cJSON_PrintUnformatted`
  pub print : Json → Option Bytes

module _ (api : JsonApi) where
  open api use {Json, parse, is_object, item, string_value, int_value}

  -- The parsed text, if it is an object.
  unfoldable pub parse_object : Bytes → Option Json
  parse_object text = elim (parse text) [
    | none ↦ none
    | some root ↦ if is_object root then some root else none
  ]

  unfoldable pub string_in : Option Json → Option Bytes
  string_in none = none
  string_in (some v) = string_value v

  unfoldable pub int_in : Option Json → Option ℤ
  int_in none = none
  int_in (some v) = int_value v

  unfoldable pub json_string : Json → Bytes → Option Bytes
  unfolding string_in
  json_string root key = string_in (item root key)

  unfoldable pub json_int : Json → Bytes → ℤ → ℤ
  unfolding int_in
  json_int root key default_value = elim (int_in (item root key)) [
    | none ↦ default_value
    | some n ↦ n
  ]

  unfoldable pub json_bool : Json → Bytes → Bool → Bool
  json_bool root key default_value = elim (item root key) [
    | none ↦ default_value
    | some v ↦ api.is_true v
  ]

  -- An absent string reads as the empty one.
  unfoldable pub json_optional_string : Json → Bytes → Bytes
  json_optional_string root key = elim (json_string root key) [ none ↦ [] | some s ↦ s ]
