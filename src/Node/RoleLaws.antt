-- ===== src/Node/RoleLaws.antt =====
-- main/roles/role_config.c: how the roles exclude and imply one another.
use esp32_agent_mesh.Prelude.{Bytes, str_eq, str_eq_refl, ◌≡◌, refl, true, false, not, arith}
use esp32_agent_mesh.Node.Profile.{NodeProfile, node_is_role, node_has_capability}
use esp32_agent_mesh.Node.Roles.{
  role_edge, role_sensor, role_is_edge, role_is_coordinator, role_is_sensor, role_is_control,
  role_is_display, role_is_guardian, role_runs_llm, role_runs_chat_channels, role_runs_scheduler,
  role_runs_sensor_sampling, role_runs_control_outputs, role_runs_display_outputs,
  role_runs_guardian,
}

-- A node that runs both the guardian service and the display outputs is an edge node that has no
-- guardian capability: elsewhere the two exclude one another.
pub guardian_and_display :
    (p : NodeProfile)
    → role_runs_guardian p ≡ true
    → role_runs_display_outputs p ≡ true
    → (role_is_edge p ≡ true) × (role_is_guardian p ≡ false)
unfolding role_runs_guardian role_runs_display_outputs
guardian_and_display p g d = ground (arith, g, d)

-- A node of the sensor role that has no capability samples its sensors, and runs no model, no
-- chat channel, no scheduler, no control or display output and no guardian.
pub plain_sensor :
    (p : NodeProfile)
    → p.role ≡ role_sensor
    → ((c : Bytes) → node_has_capability p c ≡ false)
    → (role_runs_sensor_sampling p ≡ true)
      × (role_runs_llm p ≡ false)
      × (role_runs_chat_channels p ≡ false)
      × (role_runs_scheduler p ≡ false)
      × (role_runs_control_outputs p ≡ false)
      × (role_runs_display_outputs p ≡ false)
      × (role_runs_guardian p ≡ false)
unfolding node_is_role str_eq role_is_edge role_is_coordinator role_is_sensor role_is_control
    role_is_display role_is_guardian role_runs_llm role_runs_chat_channels role_runs_scheduler
    role_runs_sensor_sampling role_runs_control_outputs role_runs_display_outputs role_runs_guardian
plain_sensor p r h = simp (r, h) (refl, refl, refl, refl, refl, refl, refl)

is_edge : (p : NodeProfile) → p.role ≡ role_edge → role_is_edge p ≡ true
unfolding role_is_edge node_is_role
is_edge p r = rw r (str_eq_refl role_edge)

-- An edge node runs every service but the display outputs, and those too unless it is a guardian.
pub edge_runs :
    (p : NodeProfile)
    → p.role ≡ role_edge
    → (role_runs_llm p ≡ true)
      × (role_runs_chat_channels p ≡ true)
      × (role_runs_scheduler p ≡ true)
      × (role_runs_sensor_sampling p ≡ true)
      × (role_runs_control_outputs p ≡ true)
      × (role_runs_guardian p ≡ true)
      × (role_runs_display_outputs p ≡ not (role_is_guardian p))
unfolding role_runs_llm role_runs_chat_channels role_runs_scheduler role_runs_sensor_sampling
    role_runs_control_outputs role_runs_display_outputs role_runs_guardian
edge_runs p r = ground (arith, is_edge p r)
