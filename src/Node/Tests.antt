-- ===== src/Node/Tests.antt =====
-- The node profile at the build-time defaults, and the theorems at concrete profiles.
use esp32_agent_mesh.Prelude.{Bytes, codes, str_eq, ◌≡◌, refl, true, false, [], ◌∷◌}
use esp32_agent_mesh.Node.Profile.{NodeProfile, trim_end, token_list_contains, node_has_capability}
use esp32_agent_mesh.Node.Tokens.{
  split, trim_start, any_field, has_field, token_list_contains-has_field,
}

abbrev default_profile : NodeProfile
default_profile = record {
  id = codes "esp32s3-edge-01";
  role = codes "edge_agent";
  location = [];
  capabilities =
      codes "coordinator,communication,sensor,control,guardian,telemetry,timeline,alerts";
  responsibilities = [];
}

default_has_guardian : node_has_capability default_profile (codes "guardian") ≡ true
unfolding node_has_capability token_list_contains trim_end str_eq
default_has_guardian = refl

abbrev plain : Bytes → NodeProfile
plain role = record default_profile { role = role; capabilities = [] }

nothing_capable : (role c : Bytes) → node_has_capability (plain role) c ≡ false
unfolding node_has_capability token_list_contains
nothing_capable role [] = refl
nothing_capable role (c ∷ cs) = refl

token_list_contains-has_field_example :
    token_list_contains (codes "a, led ;b") (codes "led")
    ≡ has_field (codes "led") (codes "a, led ;b")
token_list_contains-has_field_example =
    token_list_contains-has_field (codes "a, led ;b") (codes "led") (λ e. cc e)

led_is_field : has_field (codes "led") (codes "a, led ;b") ≡ true
unfolding split any_field trim_start trim_end str_eq
led_is_field = refl
