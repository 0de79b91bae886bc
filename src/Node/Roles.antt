-- ===== src/Node/Roles.antt =====
-- main/roles/role_config.c: what a node runs is read from its role and its capabilities.
use esp32_agent_mesh.Prelude.{if◌then◌else◌, Bytes, codes, Bool, false, ◌||◌}
use esp32_agent_mesh.Node.Profile.{NodeProfile, node_is_role, node_has_capability}

abbrev pub role_edge : Bytes
role_edge = codes "edge_agent"

abbrev pub role_coordinator : Bytes
role_coordinator = codes "coordinator_agent"

abbrev pub role_sensor : Bytes
role_sensor = codes "sensor_agent"

abbrev pub role_control : Bytes
role_control = codes "control_agent"

abbrev pub role_display : Bytes
role_display = codes "display_agent"

abbrev pub role_guardian : Bytes
role_guardian = codes "guardian_agent"

unfoldable pub role_is_edge : NodeProfile → Bool
role_is_edge p = node_is_role p role_edge

unfoldable pub role_is_coordinator : NodeProfile → Bool
role_is_coordinator p =
    node_is_role p role_coordinator || node_has_capability p (codes "coordinator")

unfoldable pub role_is_sensor : NodeProfile → Bool
role_is_sensor p = node_is_role p role_sensor || node_has_capability p (codes "sensor")

unfoldable pub role_is_control : NodeProfile → Bool
role_is_control p = node_is_role p role_control || node_has_capability p (codes "control")

unfoldable pub role_is_display : NodeProfile → Bool
role_is_display p = node_is_role p role_display || node_has_capability p (codes "display")

unfoldable pub role_is_guardian : NodeProfile → Bool
role_is_guardian p =
    node_is_role p role_guardian
    || node_has_capability p (codes "guardian")
    || node_has_capability p (codes "security")
    || node_has_capability p (codes "audit")
    || node_has_capability p (codes "privacy")

unfoldable pub role_runs_llm : NodeProfile → Bool
role_runs_llm p = role_is_edge p || role_is_coordinator p || node_has_capability p (codes "llm")

unfoldable pub role_runs_chat_channels : NodeProfile → Bool
role_runs_chat_channels p =
    role_is_edge p || role_is_coordinator p || node_has_capability p (codes "communication")

unfoldable pub role_runs_scheduler : NodeProfile → Bool
role_runs_scheduler p =
    role_is_edge p
    || role_is_coordinator p
    || node_has_capability p (codes "cron")
    || node_has_capability p (codes "proactive")

unfoldable pub role_runs_sensor_sampling : NodeProfile → Bool
role_runs_sensor_sampling p =
    role_is_edge p || role_is_sensor p || node_has_capability p (codes "telemetry")

unfoldable pub role_runs_control_outputs : NodeProfile → Bool
role_runs_control_outputs p =
    role_is_edge p || role_is_control p || node_has_capability p (codes "actuator")

unfoldable pub role_runs_display_outputs : NodeProfile → Bool
role_runs_display_outputs p =
    if role_is_guardian p
    then false
    else role_is_edge p
      || role_is_display p
      || node_has_capability p (codes "state")
      || node_has_capability p (codes "watchdog")

unfoldable pub role_runs_guardian : NodeProfile → Bool
role_runs_guardian p = role_is_edge p || role_is_guardian p
