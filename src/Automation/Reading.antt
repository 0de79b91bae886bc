-- ===== src/Automation/Reading.antt =====
-- main/automation/automation_engine.c: the metric in the answer of the sensor node.
-- Past the blanks.
use esp32_agent_mesh.Prelude.{
  ◌==◌, if◌then◌else◌, length, drop, Bytes, codes, copy_field, find_text, ℕ, Bool, false, not, ◌||◌,
  Option, none, some, [], ◌∷◌,
}
use esp32_agent_mesh.Mesh.Json.{JsonApi, parse_object, json_string}
use esp32_agent_mesh.Automation.Tables.{Metric, temperature, humidity, Floats}

unfoldable pub skip_blanks : Bytes → Bytes
skip_blanks [] = []
skip_blanks (c ∷ cs) = if c == b' ' then skip_blanks cs else c ∷ cs

-- What stands behind a marker.
abbrev pub behind : Bytes → Option Bytes → Option Bytes
behind marker none = none
behind marker (some found) = some (drop (length marker) found)

abbrev pub non_empty : Bytes → Option Bytes
non_empty [] = none
non_empty (b ∷ bs) = some (b ∷ bs)

abbrev pub output_marker : Bytes
output_marker = codes "output_message="

abbrev pub cut_behind : ℕ → Option Bytes → Option Bytes
cut_behind size none = none
cut_behind size (some rest) = non_empty (copy_field size (skip_blanks rest))

-- `json_buf_size` is positive.
unfoldable pub extract_output_message_json : Bytes → ℕ → Option Bytes
unfolding skip_blanks
extract_output_message_json text size =
    cut_behind size (behind output_marker (find_text output_marker text))

module _ (api : JsonApi) (floats : Floats api.Json) where
  open api use {Json, is_object, item, string_value}
  open floats use {Float, scan}

  -- The number behind the first place where the key stands.
  unfoldable pub scan_behind : Option Bytes → Option Float
  scan_behind none = none
  scan_behind (some rest) = scan rest

  abbrev pub both : Option Float → Option Float → Option (Float × Float)
  both (some t) (some h) = some (t, h)
  both _ _ = none

  -- On `text`, a null pointer where there is none.
  unfoldable pub parse_temperature_humidity : Option Bytes → Option (Float × Float)
  unfolding scan_behind
  parse_temperature_humidity none = none
  parse_temperature_humidity (some text) =
      both (scan_behind (behind (codes "temperature=") (find_text (codes "temperature=") text)))
        (scan_behind (behind (codes "humidity=") (find_text (codes "humidity=") text)))

  abbrev pub chosen : Metric → Option (Float × Float) → Option Float
  chosen metric none = none
  chosen temperature (some (t, h)) = some t
  chosen humidity (some (t, h)) = some h

  -- `is_null` is `cJSON_IsNull`.
  module _ (is_null : Json → Bool) where
    abbrev pub is_failure : Option Json → Bool
    is_failure none = false
    is_failure (some error) = not (is_null error)

    -- On the items "result" and "error".
    unfoldable pub result_metric : Metric → Option Json → Option Json → Option Float
    unfolding parse_temperature_humidity
    result_metric metric none error = none
    result_metric metric (some result) error =
        if not (is_object result) || is_failure error
        then none
        else chosen metric (parse_temperature_humidity (json_string api result (codes "text")))

    unfoldable pub root_metric : Metric → Option Json → Option Float
    unfolding result_metric
    root_metric metric none = none
    root_metric metric (some root) =
        result_metric metric (item root (codes "result")) (item root (codes "error"))

    unfoldable pub json_metric : Metric → Option Bytes → Option Float
    unfolding root_metric
    json_metric metric none = none
    json_metric metric (some output_json) = root_metric metric (parse_object api output_json)

    unfoldable pub parse_sensor_output_metric : Bytes → Metric → Option Float
    unfolding extract_output_message_json json_metric
    parse_sensor_output_metric output_text metric =
        json_metric metric (extract_output_message_json output_text 1024)
