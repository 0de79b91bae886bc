-- ===== src/Agent/Requests.antt =====
-- main/agent/agent_loop.c: the requests that are carried out without the model.
use esp32_agent_mesh.Prelude.{
  ltb, if◌then◌else◌, length, Bytes, codes, str_eq, has_prefix, copy_field, ℕ, not, ◌&&◌, ◌||◌,
  Option, none, some, List, [], ◌∷◌, ◌++◌, map,
}
use esp32_agent_mesh.Bus.Messages.{Msg, chan_system}
use esp32_agent_mesh.Agent.World.{AgentEffect, executes, MeshRequest, AgentWorld}

-- reply_buf
abbrev pub reply_size : ℕ
reply_size = 512

module _ (w : AgentWorld) (msg : Msg) where
  -- A text that `strdup` copies.
  abbrev pub copied_text : Bytes → Option Bytes
  copied_text text = if w.copied text then some text else none

  -- A tool that runs on an input made from the message: the text of the reply, if there is memory
  -- for it, and what is done.
  unfoldable pub run_request :
      Bytes → Bytes → Bytes → Option Bytes → Option Bytes × List AgentEffect
  run_request name done_text failed_text none = (none, [])
  run_request name done_text failed_text (some payload) =
      let output = w.execute name payload in
      let head = if has_prefix (codes "OK:") output then done_text else failed_text in
      (copied_text (copy_field reply_size (head ++ output)), executes name payload ∷ [])

  -- The steps of a workflow: a pause and a colour each.
  abbrev pub workflow_steps : ℕ → List Bytes → List (ℕ × Bytes)
  workflow_steps delay_ms [] = []
  workflow_steps delay_ms (color ∷ colors) = (0, color) ∷ map (λ c. (delay_ms, c)) colors

  unfoldable pub workflow_payload : Option Bytes
  workflow_payload =
      let colors = w.words.color_sequence msg.content in
      if str_eq msg.channel chan_system
        || w.words.has_local_marker msg.content
        || not (w.words.is_light_request msg.content)
        || not (w.words.has_sequence_marker msg.content)
        || ltb (length colors) 2
      then none
      else w.print_workflow (workflow_steps (w.words.delay_ms msg.content) colors)

  abbrev pub request_of : Bytes → Bytes → Option Bytes → MeshRequest
  request_of target_role action color = record {
    target_role = target_role;
    action = action;
    color = color;
    reply_channel = msg.channel;
    reply_chat_id = msg.chat_id;
  }

  abbrev pub light_request : Option Bytes → Option Bytes
  light_request none = none
  light_request (some color) =
      w.print_request (request_of (codes "control_agent") (codes "set_status_light") (some color))

  unfoldable pub request_payload : Option Bytes
  request_payload =
      if str_eq msg.channel chan_system || w.words.has_local_marker msg.content
      then none
      else if w.words.is_temperature_request msg.content
          && not (w.words.is_weather_request msg.content)
      then w.print_request
          (request_of (codes "sensor_agent") (codes "read_temperature_humidity") none)
      else if w.words.is_light_request msg.content
      then light_request (w.words.light_color msg.content)
      else none

  unfoldable pub try_execute_deterministic_light_workflow : Option Bytes × List AgentEffect
  unfolding run_request workflow_payload
  try_execute_deterministic_light_workflow =
      run_request (codes "automation_create_workflow") (w.phrases.light_created msg)
        w.phrases.light_failed workflow_payload

  unfoldable pub try_execute_deterministic_mesh_request : Option Bytes × List AgentEffect
  unfolding run_request request_payload
  try_execute_deterministic_mesh_request =
      run_request (codes "mesh_send_command") w.phrases.mesh_sent w.phrases.mesh_failed
        request_payload

  -- The second is tried where the first left no text.
  unfoldable pub or_mesh_request : Option Bytes × List AgentEffect → Option Bytes × List AgentEffect
  unfolding try_execute_deterministic_mesh_request
  or_mesh_request (some text, es) = (some text, es)
  or_mesh_request (none, es) =
      let (text, more) = try_execute_deterministic_mesh_request in (text, es ++ more)

  unfoldable pub deterministic_request : Option Bytes × List AgentEffect
  unfolding or_mesh_request try_execute_deterministic_light_workflow
  deterministic_request = or_mesh_request try_execute_deterministic_light_workflow
