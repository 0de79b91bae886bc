-- ===== src/Node/Profile.antt =====
-- main/node/node_profile.c. The identity strings are build-time constants of the secrets header, so
-- they are a record that every function takes.
use esp32_agent_mesh.Prelude.{
  ◌==◌, if◌then◌else◌, length, Bytes, codes, str_eq, is_empty, ℕ, zero, suc, Bool, true, false, not,
  ◌&&◌, ◌||◌, [], ◌∷◌,
}

pub record NodeProfile : Type 0 where
  pub id : Bytes
  pub role : Bytes
  pub location : Bytes
  pub capabilities : Bytes
  pub responsibilities : Bytes

-- `,`, `;` and `|`
abbrev pub is_separator : ℕ → Bool
is_separator c = c == b',' || c == b';' || c == b'|'

abbrev pub is_skipped : ℕ → Bool
is_skipped c = c == b' ' || is_separator c

unfoldable pub skip_separators : Bytes → Bytes
skip_separators [] = []
skip_separators (c ∷ cs) = if is_skipped c then skip_separators cs else c ∷ cs

-- The token up to the next separator, and what follows it.
unfoldable pub scan_token : Bytes → Bytes × Bytes
scan_token [] = ([], [])
scan_token (c ∷ cs) =
    if is_separator c then ([], c ∷ cs) else (c ∷ (scan_token cs).0, (scan_token cs).1)

-- `while (end > start && end[-1] == ' ') end--;`
unfoldable pub trim_end : Bytes → Bytes
trim_end [] = []
trim_end (c ∷ cs) = if c == b' ' && is_empty (trim_end cs) then [] else c ∷ trim_end cs

unfoldable pub token_matches : Bytes → Bytes → Bool
token_matches token word = not (is_empty (trim_end word)) && str_eq (trim_end word) token

-- The outer `while`, on fuel: each round reads at least one byte.
unfoldable pub contains_from : ℕ → Bytes → Bytes → Bool
unfolding token_matches scan_token skip_separators
contains_from zero token list = false
contains_from (suc fuel) token [] = false
contains_from (suc fuel) token (c ∷ cs) =
    let scanned = scan_token (skip_separators (c ∷ cs)) in
    let later = contains_from fuel token scanned.1 in
    if token_matches token scanned.0 then true else later

unfoldable pub token_list_contains : Bytes → Bytes → Bool
unfolding contains_from
token_list_contains list token =
    if is_empty token then false else contains_from (suc (length list)) token list

unfoldable pub node_is_role : NodeProfile → Bytes → Bool
node_is_role p role = str_eq p.role role

unfoldable pub node_has_capability : NodeProfile → Bytes → Bool
node_has_capability p capability = token_list_contains p.capabilities capability

unfoldable pub node_should_publish_sensor_telemetry : NodeProfile → Bool
node_should_publish_sensor_telemetry p =
    node_has_capability p (codes "sensor")
    || node_has_capability p (codes "telemetry")
    || node_is_role p (codes "edge_agent")
    || node_is_role p (codes "sensor_agent")
