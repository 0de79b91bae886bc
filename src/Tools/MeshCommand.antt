-- ===== src/Tools/MeshCommand.antt =====
-- main/tools/tool_mesh_command.c: a request for a command goes to the Guardian first, then, if it is
-- allowed, to the node; the result is waited for by the caller or by a task of its own.
-- What is handed on, in order: a text for a topic, a note for the timeline (its phase, event and
-- status), a task that waits for a result.
use esp32_agent_mesh.Prelude.{
  ltb, if◌then◌else◌, Bytes, codes, str_eq, EspErr, ok, no_mem, invalid_state, invalid_response,
  is_ok, Attempt, done, failed, ℕ, Bool, not, Option, none, some, List, [], ◌∷◌, ◌++◌,
}
use esp32_agent_mesh.Prelude.Int.{ℤ, pos, pos_part, ltb_ℤ}
use esp32_agent_mesh.Mesh.Json.{JsonApi, parse_object, json_optional_string}
use esp32_agent_mesh.Mesh.Rows.{Row}
use esp32_agent_mesh.Mesh.Decisions.{PolicyCache, policy_json_size, wait_policy_decision}
use esp32_agent_mesh.Mesh.Outputs.{OutputCache, output_json_size, wait_output_message}
use esp32_agent_mesh.Tools.Sending.{Outgoing, read_input, command_row, policy_row}
use esp32_agent_mesh.Tools.Waiting.{WaitContext, wait_context}

pub data SendEffect : Type 0 where
  publishes : Bytes → Bytes → SendEffect
  notes : Bytes → Bytes → Bytes → SendEffect
  starts_task : WaitContext → SendEffect

-- What the tool's output says.
pub data SendReply : Type 0 where
  input_error blocked not_queued queued queued_unwatched : SendReply
  queued_task : Bytes → SendReply
  completed : Bytes → Bytes → SendReply
  timed_out : ℕ → SendReply

pub record Sent : Type 0 where
  pub status : EspErr
  pub reply : SendReply
  pub effects : List SendEffect

-- `wait_ms` of `request_policy_decision`.
unfoldable pub decision_wait_ms : ℤ → ℕ
decision_wait_ms ttl_ms =
    let wait_ms = if ltb_ℤ (pos 0) ttl_ms then pos_part ttl_ms else 30000 in
    let capped = if ltb 8000 wait_ms then 8000 else wait_ms in
    if ltb capped 1000 then 1000 else capped

-- `wait_ms` of the result.
unfoldable pub output_wait_ms : ℤ → ℕ
output_wait_ms ttl_ms = if ltb_ℤ (pos 0) ttl_ms then pos_part ttl_ms else 30000

-- What the parts outside of this file say in one call of the tool.
pub record SendWorld (J : Type 0) : Type 0 where
  -- cJSON makes the text of an object, or fails for want of memory, for the object or for the text.
  pub print_row : Row J → Option Bytes
  -- `sensor_mqtt_publish_text`
  pub publish : Bytes → Bytes → EspErr
  -- ESPAGENT_MESH_TOPIC_PREFIX and ESPAGENT_MESH_TOPIC_POLICY_CHECK
  pub prefix : Bytes
  pub check_topic : Bytes
  pub empty : J
  pub made_id : Bytes
  pub ts_ms : ℕ
  -- The two mutexes, and the two caches as they are at each poll before the deadline.
  pub policy_made : Bool
  pub output_made : Bool
  pub decisions : List PolicyCache
  pub outputs : List OutputCache
  -- `calloc` and `xTaskCreate`
  pub context_there : Bool
  pub task_created : Bool

-- A task that is started, or the code of the failure.
unfoldable pub start_mesh_wait_task : {J : Type 0} → SendWorld J → Outgoing J → EspErr × WaitContext
start_mesh_wait_task w o = (
  if not w.context_there then no_mem else if not w.task_created then no_mem else ok,
  wait_context o (output_wait_ms o.ttl_ms),
)

unfoldable pub watched : EspErr → WaitContext → SendReply × List SendEffect
watched ok ctx = (queued_task ctx.task_id, starts_task ctx ∷ [])
watched e ctx = (queued_unwatched, [])

unfoldable pub waited : {J : Type 0} → Outgoing J → EspErr × Bytes → SendReply × List SendEffect
waited o (ok, output_json) = (completed o.command_id output_json, [])
waited o (e, output_json) = (timed_out (output_wait_ms o.ttl_ms), [])

-- What follows a command that is queued.
unfoldable pub follow : {J : Type 0} → SendWorld J → Outgoing J → SendReply × List SendEffect
unfolding start_mesh_wait_task watched waited
follow w o =
    if not o.require_ack
    then (queued, [])
    else if o.async_wait
    then (let (e, ctx) = start_mesh_wait_task w o in watched e ctx)
    else waited o (wait_output_message w.output_made o.command_id output_json_size w.outputs)

unfoldable pub queue_command : {J : Type 0} → SendWorld J → Outgoing J → Bytes → EspErr → Sent
unfolding follow
queue_command w o payload ok =
    let (reply, effects) = follow w o in
    record {
      status = ok;
      reply = reply;
      effects =
          publishes o.topic payload
          ∷ notes (codes "dispatch") (codes "mesh_command_queued") (codes "ok")
          ∷ effects;
    }
queue_command w o payload e = record {
  status = e;
  reply = not_queued;
  effects =
      publishes o.topic payload
      ∷ notes (codes "dispatch") (codes "mesh_command_queued") (codes "error")
      ∷ [];
}

-- On the Guardian's answer. `asked` is what was published to ask for it.
unfoldable pub on_decision :
    {J : Type 0} → SendWorld J → Outgoing J → Bytes → List SendEffect → EspErr → Sent
unfolding queue_command
on_decision w o payload asked ok =
    let sent = queue_command w o payload (w.publish o.topic payload) in
    record sent {
      effects =
          asked ++ (notes (codes "policy") (codes "policy_check") (codes "ok") ∷ sent.effects);
    }
on_decision w o payload asked e = record {
  status = e;
  reply = blocked;
  effects = asked ++ (notes (codes "policy") (codes "policy_check") (codes "blocked") ∷ []);
}

module _ (api : JsonApi) where
  open api use {Json}

  unfoldable pub decision_status : Option Json → EspErr
  decision_status none = invalid_response
  decision_status (some root) =
      if str_eq (json_optional_string api root (codes "decision")) (codes "allow")
      then ok
      else invalid_state

  unfoldable pub decided : EspErr × Bytes → EspErr
  unfolding decision_status
  decided (ok, decision_json) = decision_status (parse_object api decision_json)
  decided (e, decision_json) = e

  unfoldable pub ask_printed :
      SendWorld Json → Outgoing Json → Option Bytes → EspErr × List SendEffect
  unfolding decided
  ask_printed w o none = (no_mem, [])
  ask_printed w o (some json) = (
    if is_ok (w.publish w.check_topic json)
        then decided (wait_policy_decision w.policy_made o.command_id policy_json_size w.decisions)
        else w.publish w.check_topic json,
    publishes w.check_topic json ∷ [],
  )

  unfoldable pub request_policy_decision : SendWorld Json → Outgoing Json → EspErr × List SendEffect
  unfolding ask_printed
  request_policy_decision w o = ask_printed w o (w.print_row (policy_row api w.ts_ms o))

  unfoldable pub send_printed : SendWorld Json → Outgoing Json → Option Bytes → Sent
  unfolding request_policy_decision on_decision
  send_printed w o none = record { status = no_mem; reply = input_error; effects = [] }
  send_printed w o (some payload) =
      let (policy_err, asked) = request_policy_decision w o in
      on_decision w o payload asked policy_err

  unfoldable pub send_read : SendWorld Json → Attempt (Outgoing Json) → Sent
  unfolding send_printed
  send_read w (failed e) = record { status = e; reply = input_error; effects = [] }
  send_read w (done o) = send_printed w o (w.print_row (command_row api o))

  unfoldable pub send_command_execute : SendWorld Json → Bytes → Sent
  unfolding send_read
  send_command_execute w input_json =
      send_read w (read_input api w.prefix w.empty w.made_id (parse_object api input_json))
