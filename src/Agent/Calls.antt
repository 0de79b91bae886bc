-- ===== src/Agent/Calls.antt =====
-- main/agent/agent_loop.c: the calls of tools that the language model asks for.
-- `llm_tool_call_t`, with a null pointer where no input came.
use esp32_agent_mesh.Prelude.{
  if◌then◌else◌, Bytes, codes, str_eq, is_empty, or_word, ℕ, Bool, true, false, not, ◌&&◌, ◌||◌,
  Option, none, some,
}
use esp32_agent_mesh.Bus.Messages.{Msg}
use esp32_agent_mesh.Mesh.Json.{JsonApi, parse_object, json_string}
use esp32_agent_mesh.Mesh.Rows.{Value, text, truth}

pub record ToolCall : Type 0 where
  pub id : Bytes
  pub name : Bytes
  pub input : Option Bytes

abbrev pub msg_flag_proactive : ℕ
msg_flag_proactive = 1

abbrev pub msg_flag_internal_result : ℕ
msg_flag_internal_result = 2

unfoldable pub is_mesh_related_tool_name : Bytes → Bool
is_mesh_related_tool_name name =
    str_eq name (codes "mesh_send_command")
    || str_eq name (codes "read_temperature_humidity")
    || str_eq name (codes "set_status_light")
    || str_eq name (codes "ws2812_set")
    || str_eq name (codes "gpio_write")
    || str_eq name (codes "servo_write")

module _ (api : JsonApi) where
  open api use {Json, item, print}

  -- An input and whether it was changed.
  pub record Patched : Type 0 where
    pub root : Json
    pub changed : Bool

  -- `put` is `json_set_string` and `cJSON_AddBoolToObject`, `empty` a new object.
  module _ (put : Json → Bytes → Value Json → Json) (empty : Json) where
    abbrev pub put_where : Bool → Bytes → Value Json → Patched → Patched
    put_where wanted key v p =
        if wanted then record { root = put p.root key v; changed = true } else p

    abbrev pub is_absent : {A : Type 0} → Option A → Bool
    is_absent none = true
    is_absent (some a) = false

    unfoldable pub patch_mesh : Msg → Patched → Patched
    patch_mesh msg p₀ =
        let p₁ =
          put_where (is_absent (item p₀.root (codes "async"))) (codes "async") (truth true) p₀ in
        let p₂ =
          put_where
            (is_absent (json_string api p₁.root (codes "reply_channel"))
              && not (is_empty msg.channel))
            (codes "reply_channel") (text msg.channel) p₁ in
        put_where
          (is_absent (json_string api p₂.root (codes "reply_chat_id"))
            && not (is_empty msg.chat_id))
          (codes "reply_chat_id") (text msg.chat_id) p₂

    abbrev pub lacks_text : Option Bytes → Bool
    lacks_text none = true
    lacks_text (some s) = is_empty s

    abbrev pub is_target : Msg → Option Bytes → Bool
    is_target msg none = false
    is_target msg (some channel) = str_eq channel msg.channel && not (is_empty msg.chat_id)

    abbrev pub no_chat : Option Bytes → Bool
    no_chat none = true
    no_chat (some s) = is_empty s || str_eq s (codes "cron")

    unfoldable pub patch_cron : Msg → Patched → Patched
    patch_cron msg p₀ =
        let channel = json_string api p₀.root (codes "channel") in
        let fill = lacks_text channel && not (is_empty msg.channel) in
        let p₁ = put_where fill (codes "channel") (text msg.channel) p₀ in
        let now_channel = if fill then some msg.channel else channel in
        put_where (is_target msg now_channel && no_chat (json_string api p₁.root (codes "chat_id")))
          (codes "chat_id") (text msg.chat_id) p₁

    abbrev pub object_or_empty : Option Json → Json
    object_or_empty none = empty
    object_or_empty (some root) = root

    abbrev pub printed_if_changed : Patched → Option Bytes
    printed_if_changed p = if p.changed then print p.root else none

    -- The new input, if there is one.
    unfoldable pub patch_tool_input_with_context : ToolCall → Msg → Option Bytes
    unfolding patch_mesh patch_cron
    patch_tool_input_with_context call msg =
        let p : Patched = record {
          root = object_or_empty (parse_object api (or_word (codes "{}") call.input));
          changed = false;
        } in
        if str_eq call.name (codes "mesh_send_command")
        then printed_if_changed (patch_mesh msg p)
        else if str_eq call.name (codes "cron_add")
        then printed_if_changed (patch_cron msg p)
        else none
