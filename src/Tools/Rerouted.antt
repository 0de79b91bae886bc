-- ===== src/Tools/Rerouted.antt =====
-- main/tools/tool_registry.c: what the mesh command tool reads of a call that a coordinator sends on.
use esp32_agent_mesh.Prelude.{
  Bool-cases, Bytes, codes, str_eq, str_eq_iff, same_name, done, ◌≡◌, refl, subst, inl, inr, Bool,
  true, none, some, [], ◌∷◌, arith,
}
use esp32_agent_mesh.Prelude.Int.{ℤ, pos}
use esp32_agent_mesh.Mesh.Json.{
  JsonApi, parse_object, int_in, json_int, json_bool, json_optional_string,
}
use esp32_agent_mesh.Mesh.Rows.{
  text, tree, Row, find_value, ShowsField, IsRead, IsRead-parse_object, json_string-text,
  json_string-none, item-tree,
}
use esp32_agent_mesh.Node.Roles.{role_control}
use esp32_agent_mesh.Tools.Sending.{
  is_control_action, is_sensor_action, is_allowed_mesh_action, defaulted_role, is_wrong_role,
  check_request, command_topic, or_failed, clamp_ttl, Outgoing, found_args_tree, copy_args,
  outgoing, read_request, read_input,
}

-- The object that `route_control_action_to_mesh` prints.
abbrev pub route_row : {J : Type 0} → Bytes → J → Row J
route_row action args =
    (codes "target_role", text (codes "control_agent"))
    ∷ (codes "action", text action)
    ∷ (codes "args", tree args)
    ∷ []

-- A command for the control nodes, with the defaults of the mesh command tool.
pub record IsControlCommand {J : Type 0} (action topic : Bytes) (args : J) (o : Outgoing J)
    : Type 0 where
  pub action_is : o.action ≡ action
  pub role_is : o.target_role ≡ role_control
  pub node_is : o.target_node ≡ []
  pub topic_is : o.topic ≡ topic
  pub args_are : o.args ≡ args
  pub ttl_is : o.ttl_ms ≡ pos 30000
  pub safety_is : o.safety_level ≡ pos 1
  pub ack_is : o.require_ack ≡ true
  pub async_is : o.async_wait ≡ true

check_request-control :
    (action : Bytes)
    → is_control_action action ≡ true
    → check_request action [] role_control ≡ done role_control
unfolding check_request is_control_action is_allowed_mesh_action is_sensor_action defaulted_role
    is_wrong_role str_eq
check_request-control action h = elim (Bool-cases (str_eq action (codes "set_status_light"))) [
  | inl e ↦ rw ((str_eq_iff action (codes "set_status_light")).0 e) refl
  | inr a ↦ elim (Bool-cases (str_eq action (codes "ws2812_set"))) [
    | inl e ↦ rw ((str_eq_iff action (codes "ws2812_set")).0 e) refl
    | inr b ↦ elim (Bool-cases (str_eq action (codes "servo_write"))) [
      | inl e ↦ rw ((str_eq_iff action (codes "servo_write")).0 e) refl
      | inr c ↦
          let last : str_eq action (codes "gpio_write") ≡ true = ground (arith, h, a, b, c) in
          rw ((str_eq_iff action (codes "gpio_write")).0 last) refl
    ]
  ]
]

module _ (api : JsonApi) (action payload : Bytes) (args : api.Json)
    (r : IsRead api (route_row action args) payload) where
  route_text :
      (key s : Bytes)
      → find_value (route_row action args) key ≡ some (text s)
      → json_optional_string api r.root key ≡ s
  unfolding json_optional_string
  route_text key s e =
      rw (json_optional_string, json_string-text api (route_row action args) payload r key s e)

  route_none :
      (key : Bytes)
      → find_value (route_row action args) key ≡ none
      → json_optional_string api r.root key ≡ []
  unfolding json_optional_string
  route_none key e =
      rw (json_optional_string, json_string-none api (route_row action args) payload r key e)

  absent_item :
      (key : Bytes) → find_value (route_row action args) key ≡ none → api.item r.root key ≡ none
  absent_item key e = subst (λ v. ShowsField api v (api.item r.root key)) e (r.shown key)

  route_int :
      (key : Bytes) (d : ℤ)
      → find_value (route_row action args) key ≡ none
      → json_int api r.root key d ≡ d
  unfolding json_int
  route_int key d e = rw (json_int, absent_item key e, int_in)

  route_bool :
      (key : Bytes) (d : Bool)
      → find_value (route_row action args) key ≡ none
      → json_bool api r.root key d ≡ d
  unfolding json_bool
  route_bool key d e = rw (json_bool, absent_item key e)

  route_args :
      (empty : api.Json)
      → copy_args api empty r.root (json_optional_string api r.root (codes "args_json")) ≡ done args
  unfolding copy_args found_args_tree same_name
  route_args empty = rw (
    route_none (codes "args_json") refl,
    item-tree api (route_row action args) payload r (codes "args") args refl,
  )

  outgoing-IsControlCommand :
      (made_id topic : Bytes)
      → IsControlCommand action topic args (outgoing api made_id r.root role_control topic args)
  unfolding outgoing clamp_ttl same_name
  outgoing-IsControlCommand made_id topic = record {
    action_is = route_text (codes "action") action refl;
    role_is = refl;
    node_is = rw (route_none (codes "target_node") refl) refl;
    topic_is = refl;
    args_are = refl;
    ttl_is = rw (route_int (codes "ttl_ms") (pos 30000) refl) refl;
    safety_is = route_int (codes "safety_level") (pos 1) refl;
    ack_is = route_bool (codes "require_ack") true refl;
    async_is = route_bool (codes "async") true refl;
  }

  -- The mesh command tool reads it as a command for the control nodes.
  pub read_input-IsControlCommand :
      (prefix made_id topic : Bytes) (empty : api.Json)
      → is_control_action action ≡ true
      → or_failed (command_topic prefix [] role_control) ≡ done topic
      → (o : Outgoing api.Json) × (read_input api prefix empty made_id (parse_object api payload)
          ≡ done o)
        × IsControlCommand action topic args o
  unfolding read_input read_request same_name
  read_input-IsControlCommand prefix made_id topic empty acts named = (
    outgoing api made_id r.root role_control topic args,
    rw (
      IsRead-parse_object api (route_row action args) payload r,
      route_text (codes "action") action refl,
      route_text (codes "target_role") role_control refl,
      route_none (codes "target_node") refl,
      check_request-control action acts,
      named,
      route_int (codes "safety_level") (pos 1) refl,
      route_args empty,
    ),
    outgoing-IsControlCommand made_id topic,
  )
