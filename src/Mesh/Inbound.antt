-- ===== src/Mesh/Inbound.antt =====
-- main/sensors/sensor_mqtt.c: what the MQTT task does with a message that it reads from the broker.
-- The caches that the task fills: those of results and of decisions.
use esp32_agent_mesh.Prelude.{
  if◌then◌else◌, replicate, Bytes, str_eq, EspErr, ℕ, Bool, Option, none, some, List, [], ◌∷◌, map,
}
use esp32_agent_mesh.Mqtt.Packets.{mqtt_poll_inbound}
use esp32_agent_mesh.Mesh.Json.{JsonApi}
use esp32_agent_mesh.Mesh.Command.{MeshCommand}
use esp32_agent_mesh.Mesh.Outputs.{OutputCache, no_outputs, output_cache_maybe_store_payload}
use esp32_agent_mesh.Mesh.Decisions.{PolicyCache, no_decisions, policy_cache_maybe_store_payload}
use esp32_agent_mesh.Mesh.Guardian.{
  Reason, PolicyCheck, GuardianEffect, handle_guardian_policy_check,
}
use esp32_agent_mesh.Mesh.Control.{ControlTool, MeshEffect, replies, handle_mesh_command}
use esp32_agent_mesh.Mesh.Stateboard.{Outlet}
use esp32_agent_mesh.Mesh.Announce.{MeshTopics}
use esp32_agent_mesh.Mesh.Audit.{guardian_audit_timeline_payload}

pub record Caches : Type 0 where
  pub outputs : OutputCache
  pub decisions : PolicyCache

abbrev pub no_cached : Caches
no_cached = record { outputs = no_outputs; decisions = no_decisions }

pub data NodeEffect : Type 0 where
  obeys : MeshEffect → NodeEffect
  judges : GuardianEffect → NodeEffect
  audits : Bytes → Bytes → NodeEffect

-- Whether each mutex is there, and whether it is had in time; how often the cache of decisions is
-- looked at within the 300 ms that a command waits; the time.
pub record Moment : Type 0 where
  pub output_made : Bool
  pub output_taken : Bool
  pub policy_made : Bool
  pub policy_taken : Bool
  pub looks : ℕ
  pub ts_ms : ℕ

-- A result that is published also goes to the cache of results: `report` is what that comes to.
abbrev pub results_kept :
    (MeshCommand → EspErr → OutputCache → OutputCache) → List MeshEffect → OutputCache → OutputCache
results_kept report [] outputs = outputs
results_kept report (replies cmd err ∷ es) outputs = results_kept report es (report cmd err outputs)
results_kept report (_ ∷ es) outputs = results_kept report es outputs

module _ (api : JsonApi) (sensor : EspErr) (execute : ControlTool → Bytes → EspErr)
    (encode : Reason → PolicyCheck → Option Bytes)
    (report : MeshCommand → EspErr → OutputCache → OutputCache) (o : Outlet api.Json)
    (topics : MeshTopics) where
  -- The task is the only one that fills the cache of decisions: while it waits for a decision, the
  -- cache stays as it is.
  unfoldable pub command_effects : Moment → Bytes → Caches → List MeshEffect
  command_effects now msg c =
      handle_mesh_command api sensor execute o.me now.policy_made (replicate now.looks c.decisions)
        msg

  unfoldable pub obey : Moment → Bytes → Caches → List NodeEffect × Caches
  unfolding command_effects
  obey now msg c =
      let es = command_effects now msg c in
      (map obeys es, record c { outputs = results_kept report es c.outputs })

  unfoldable pub keep_output : Moment → Bytes → Caches → Caches
  keep_output now msg c = record c {
    outputs =
        output_cache_maybe_store_payload api now.output_made now.output_taken now.ts_ms msg
          c.outputs;
  }

  unfoldable pub keep_decision : Moment → Bytes → Caches → Caches
  keep_decision now msg c = record c {
    decisions =
        policy_cache_maybe_store_payload api now.policy_made now.policy_taken now.ts_ms msg
          c.decisions;
  }

  -- The choice by topic.
  unfoldable pub dispatch_message : Moment → Bytes → Bytes → Caches → List NodeEffect × Caches
  unfolding obey keep_output keep_decision
  dispatch_message now topic msg c =
      if str_eq topic topics.command
      then obey now msg c
      else if str_eq topic topics.role_command
      then obey now msg c
      else if str_eq topic topics.dispatch
      then ([], c)
      else if str_eq topic topics.alerts
      then ([], c)
      else if str_eq topic topics.timeline
      then (
        map (λ (m : Bytes × Bytes). audits m.0 m.1)
            (guardian_audit_timeline_payload api o topics now.ts_ms msg),
        keep_output now msg c,
      )
      else if str_eq topic topics.policy_check
      then (
        map judges
            (handle_guardian_policy_check api encode topics.policy_decision topics.events o.me msg),
        c,
      )
      else if str_eq topic topics.policy_decision
      then ([], keep_decision now msg c)
      else ([], c)

  unfoldable pub dispatch_read : Moment → Option (Bytes × Bytes) → Caches → List NodeEffect × Caches
  unfolding dispatch_message
  dispatch_read now none c = ([], c)
  dispatch_read now (some (topic, msg)) c = dispatch_message now topic msg c

  -- A poll of the socket, to its end.
  unfoldable pub poll_and_dispatch : Moment → Bytes → Caches → (List NodeEffect × Caches) × Bytes
  unfolding mqtt_poll_inbound dispatch_read
  poll_and_dispatch now s c = let (m, s') = mqtt_poll_inbound s in (dispatch_read now m c, s')

  -- Messages one after the other, each at its moment.
  abbrev pub caches_after : List (Moment × Bytes × Bytes) → Caches → Caches
  caches_after [] c = c
  caches_after ((now, topic, msg) ∷ ms) c = caches_after ms (dispatch_message now topic msg c).1
