-- ===== src/Agent/Requested.antt =====
-- main/agent/agent_loop.c: which messages make a tool run without the model, and on what input.
use esp32_agent_mesh.Prelude.{
  ltb, Bool-cases, length, All, All-append, Bytes, str_eq, ◌≡◌, refl, inl, inr, true, not, ◌&&◌,
  ◌||◌, Option, none, some, List, arith,
}
use esp32_agent_mesh.Bus.Messages.{Msg, chan_system}
use esp32_agent_mesh.Agent.World.{AgentEffect, executes, MeshRequest, AgentWorld}
use esp32_agent_mesh.Agent.Requests.{
  run_request, workflow_payload, light_request, request_payload,
  try_execute_deterministic_light_workflow, try_execute_deterministic_mesh_request, or_mesh_request,
  deterministic_request,
}
use esp32_agent_mesh.Agent.Replies.{
  IsSequence, IsAsked, a_reading, a_light, IsRequest, IsAllowed, made_workflow, sent_command,
}

module _ (w : AgentWorld) (msg : Msg) where
  workflow_payload-IsSequence :
      (payload : Bytes) → workflow_payload w msg ≡ some payload → IsSequence w msg payload
  unfolding workflow_payload
  workflow_payload-IsSequence payload h =
      let content = msg.content in
      let colors = w.words.color_sequence content in
      let refused =
        str_eq msg.channel chan_system
        || w.words.has_local_marker content
        || not (w.words.is_light_request content)
        || not (w.words.has_sequence_marker content)
        || ltb (length colors) 2 in
      elim (Bool-cases refused) [
        | inl e ↦ absurd (cc (rw e at h))
        | inr e ↦ record {
          off_system = ground (arith, e);
          elsewhere = ground (arith, e);
          of_lights = ground (arith, e);
          in_order = ground (arith, e);
          several = ground (arith, e);
          printed = rw e at h;
        }
      ]

  light_request-IsAsked :
      (color : Option Bytes) (payload : Bytes)
      → w.words.is_light_request msg.content ≡ true
      → w.words.light_color msg.content ≡ color
      → light_request w msg color ≡ some payload
      → (request : MeshRequest) × IsAsked w msg request × (w.print_request request ≡ some payload)
  light_request-IsAsked none payload l c h = absurd (cc h)
  light_request-IsAsked (some color) payload l c h = (_, a_light color l c, h)

  request_payload-IsRequest :
      (payload : Bytes) → request_payload w msg ≡ some payload → IsRequest w msg payload
  unfolding request_payload
  request_payload-IsRequest payload h =
      let content = msg.content in
      let refused = str_eq msg.channel chan_system || w.words.has_local_marker content in
      let reading =
        w.words.is_temperature_request content && not (w.words.is_weather_request content) in
      elim (Bool-cases refused) [
        | inl e ↦ absurd (cc (rw e at h))
        | inr e ↦ elim (Bool-cases reading) [
          | inl t ↦ record {
            off_system = ground (arith, e);
            elsewhere = ground (arith, e);
            request = _;
            asked = a_reading (ground (arith, t)) (ground (arith, t));
            printed = rw (e, t) at h;
          }
          | inr t ↦ elim (Bool-cases (w.words.is_light_request content)) [
            | inr l ↦ absurd (cc (rw (e, t, l) at h))
            | inl l ↦
                let (request, asked, printed) =
                  light_request-IsAsked (w.words.light_color content) payload l refl
                    (rw (e, t, l) at h) in
                record {
                  off_system = ground (arith, e);
                  elsewhere = ground (arith, e);
                  request = request;
                  asked = asked;
                  printed = printed;
                }
          ]
        ]
      ]

  run_request-IsAllowed :
      (name done_text failed_text : Bytes) (made : Option Bytes)
      → ((payload : Bytes) → made ≡ some payload → IsAllowed w msg (executes name payload))
      → All (IsAllowed w msg) (run_request w msg name done_text failed_text made).1
  unfolding run_request
  run_request-IsAllowed name done_text failed_text none allowed = tt
  run_request-IsAllowed name done_text failed_text (some payload) allowed =
      (allowed payload refl, tt)

  light_workflow-IsAllowed :
      All (IsAllowed w msg) (try_execute_deterministic_light_workflow w msg).1
  unfolding try_execute_deterministic_light_workflow
  light_workflow-IsAllowed =
      run_request-IsAllowed _ _ _ _
        (λ payload h. made_workflow payload (workflow_payload-IsSequence payload h))

  mesh_request-IsAllowed :
      (try_execute_deterministic_light_workflow w msg).0 ≡ none
      → All (IsAllowed w msg) (try_execute_deterministic_mesh_request w msg).1
  unfolding try_execute_deterministic_mesh_request
  mesh_request-IsAllowed no_text =
      run_request-IsAllowed _ _ _ _
        (λ payload h. sent_command payload (request_payload-IsRequest payload h) no_text)

  or_mesh_request-IsAllowed :
      (r : Option Bytes × List AgentEffect)
      → (r.0 ≡ none → (try_execute_deterministic_light_workflow w msg).0 ≡ none)
      → All (IsAllowed w msg) r.1
      → All (IsAllowed w msg) (or_mesh_request w msg r).1
  unfolding or_mesh_request
  or_mesh_request-IsAllowed (some text, es) same a = a
  or_mesh_request-IsAllowed (none, es) same a =
      All-append (IsAllowed w msg) es _ a (mesh_request-IsAllowed (same refl))

  pub deterministic_request-IsAllowed : All (IsAllowed w msg) (deterministic_request w msg).1
  unfolding deterministic_request
  deterministic_request-IsAllowed =
      or_mesh_request-IsAllowed (try_execute_deterministic_light_workflow w msg) (λ e. e)
        light_workflow-IsAllowed
