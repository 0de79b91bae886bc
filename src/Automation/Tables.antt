-- ===== src/Automation/Tables.antt =====
-- main/automation/automation_engine.c: the tables of workflows and of rules, and what the engine uses
-- of cJSON and of the compiler's floating point beyond what the mesh code does.
-- `steps` holds the first `step_count` of the array.
use esp32_agent_mesh.Prelude.{
  Bytes, codes, str_eq, copy_field, hex_digits, ℕ, ◌%◌, ◌^◌, Bool, false, not, ◌&&◌, Option, List,
  [], ◌++◌,
}
use esp32_agent_mesh.Mesh.Rows.{Row}
use esp32_agent_mesh.Automation.Steps.{AutomationStep, no_step}

pub record Workflow : Type 0 where
  pub used : Bool
  pub id : Bytes
  pub name : Bytes
  pub enabled : Bool
  pub steps : List AutomationStep

abbrev pub no_workflow : Workflow
no_workflow = record { used = false; id = []; name = []; enabled = false; steps = [] }

pub data Metric : Type 0 where
  temperature humidity : Metric

-- `last_branch`: 0, 1 and -1.
pub data Branch : Type 0 where
  unknown over under : Branch

-- `float` and the operations that the engine uses. Nothing is assumed of them.
pub record Floats (J : Type 0) : Type 1 where
  pub Float : Type 0
  -- a > b
  pub gt : Float → Float → Bool
  pub plus : Float → Float → Float
  pub minus : Float → Float → Float
  pub zero_f : Float
  pub one_f : Float
  pub thirty_five_f : Float
  -- `(float)valuedouble`, of an item for which `cJSON_IsNumber` holds.
  pub float_value : J → Option Float
  -- The item that a float is saved as.
  pub number_item : Float → J
  -- What `sscanf` reads with "%f".
  pub scan : Bytes → Option Float
  -- `cJSON_IsArray` with `cJSON_ArrayForEach`, and the array of objects that is built from rows.
  pub elements : J → Option (List J)
  pub object_item : Row J → J
  pub array_item : List (Row J) → J

pub record Rule (F : Type 0) : Type 0 where
  pub used : Bool
  pub id : Bytes
  pub name : Bytes
  pub enabled : Bool
  pub metric : Metric
  pub threshold : F
  pub hysteresis : F
  pub interval_s : ℕ
  pub cooldown_s : ℕ
  pub last_check_ms : ℕ
  pub last_action_ms : ℕ
  pub last_branch : Branch
  pub sensor_args_json : Bytes
  pub above : AutomationStep
  pub below : AutomationStep

-- After `memset`.
abbrev pub no_rule : {F : Type 0} → F → Rule F
no_rule zero_f = record {
  used = false;
  id = [];
  name = [];
  enabled = false;
  metric = temperature;
  threshold = zero_f;
  hysteresis = zero_f;
  interval_s = 0;
  cooldown_s = 0;
  last_check_ms = 0;
  last_action_ms = 0;
  last_branch = unknown;
  sensor_args_json = [];
  above = no_step;
  below = no_step;
}

-- ESPAGENT_AUTOMATION_MAX_WORKFLOWS, _MAX_RULES and _WORKFLOW_MAX_STEPS
abbrev pub max_workflows : ℕ
max_workflows = 8

abbrev pub max_rules : ℕ
max_rules = 8

abbrev pub max_steps : ℕ
max_steps = 8

-- `s_workflows` and `s_rules`.
pub record Engine (F : Type 0) : Type 0 where
  pub workflows : List Workflow
  pub rules : List (Rule F)

-- `time_us` is `esp_timer_get_time()`; "%s-%08llx", of 32 bits.
unfoldable pub gen_id : Bytes → ℕ → Bytes
unfolding hex_digits
gen_id prefix time_us = copy_field 24 (prefix ++ (codes "-" ++ hex_digits 8 (time_us % 2 ^ 32)))

-- The first slot that is not used, and the first used slot with an id.
abbrev pub is_free_workflow : Workflow → Bool
is_free_workflow w = not w.used

abbrev pub is_workflow : Bytes → Workflow → Bool
is_workflow id w = w.used && str_eq w.id id

abbrev pub is_free_rule : {F : Type 0} → Rule F → Bool
is_free_rule r = not r.used

abbrev pub is_rule : {F : Type 0} → Bytes → Rule F → Bool
is_rule id r = r.used && str_eq r.id id
