-- ===== src/Tools/Waits.antt =====
-- main/tools/tool_mesh_command.c: how long the tool waits, and what the waiting task sends on.
use esp32_agent_mesh.Prelude.{
  if_cases, All, All-append, Bytes, copy_field, EspErr, ok, Attempt, done, failed, ◌≤◌, ◌≡◌, refl,
  ◌≢◌, not, Option, none, some, List, arith,
}
use esp32_agent_mesh.Prelude.Int.{ℤ, pos, negsuc, ◌≤ℤ◌}
use esp32_agent_mesh.Mesh.Json.{JsonApi, parse_object}
use esp32_agent_mesh.Tools.Sending.{Outgoing, read_input, command_row, policy_row}
use esp32_agent_mesh.Tools.Waiting.{WaitContext, wait_context}
use esp32_agent_mesh.Tools.MeshCommand.{
  SendEffect, starts_task, SendReply, queued_task, decision_wait_ms, output_wait_ms, SendWorld,
  start_mesh_wait_task, watched, waited, follow, queue_command, on_decision, ask_printed,
  request_policy_decision, send_printed, send_read, send_command_execute,
}
use esp32_agent_mesh.Tools.Requests.{IsSendable, read_input-IsSendable}
use esp32_agent_mesh.Mesh.Command.{mesh_node_max}
use esp32_agent_mesh.Mesh.Outputs.{output_json_size, wait_output_message}

clamped_waits :
    (ttl : ℤ)
    → pos 1000 ≤ℤ ttl
    → ttl ≤ℤ pos 30000
    → (1000 ≤ decision_wait_ms ttl)
      × (decision_wait_ms ttl ≤ 8000)
      × (decision_wait_ms ttl ≤ output_wait_ms ttl)
      × (output_wait_ms ttl ≤ 30000)
unfolding decision_wait_ms output_wait_ms
clamped_waits (pos n) h k = (ground arith, ground arith, ground arith, ground arith)
clamped_waits (negsuc n) h k = absurd (omega arith)

-- A task that is started waits for what the input asks for, and its limit is in range; the tool's reply
-- names it.
pub data IsTimely {J : Type 0} (input : Attempt (Outgoing J)) (reply : SendReply)
    : SendEffect → Type 0 where
  a_task :
      (o : Outgoing J) (ctx : WaitContext)
      → input ≡ done o
      → reply ≡ queued_task ctx.task_id
      → ctx.command_id ≡ o.command_id
      → copy_field mesh_node_max o.target_node ≡ ctx.target_node
      → 1000 ≤ ctx.wait_ms
      → ctx.wait_ms ≤ 30000
      → IsTimely input reply (starts_task ctx)
  no_task : (e : SendEffect) → ((ctx : WaitContext) → e ≢ starts_task ctx) → IsTimely input reply e

module _ (api : JsonApi) (w : SendWorld api.Json) (o : Outgoing api.Json)
    (is : IsSendable w.prefix w.made_id o) where
  Timely : SendReply → List SendEffect → Type 0
  Timely reply = All (IsTimely (done o) reply)

  watched-Timely :
      (e : EspErr)
      → Timely (watched e (start_mesh_wait_task w o).1).0 (watched e (start_mesh_wait_task w o).1).1
  unfolding watched start_mesh_wait_task wait_context Timely
  watched-Timely ok =
      let (l, d, m, h) = clamped_waits o.ttl_ms is.ttl_in.0 is.ttl_in.1 in
      (a_task o _ refl refl is.command_id_fits refl (omega (arith, l, m)) h, tt)
  watched-Timely e = tt

  waited-Timely : (answer : EspErr × Bytes) → Timely (waited o answer).0 (waited o answer).1
  unfolding waited Timely
  waited-Timely (ok, output_json) = tt
  waited-Timely (e, output_json) = tt

  follow-Timely : Timely (follow w o).0 (follow w o).1
  unfolding follow
  follow-Timely =
      if_cases (λ (f : SendReply × List SendEffect). Timely f.0 f.1) (not o.require_ack) _ _
        (λ n. unfold Timely in tt)
        (λ acked.
          if_cases (λ (f : SendReply × List SendEffect). Timely f.0 f.1) o.async_wait _ _
            (λ s. watched-Timely (start_mesh_wait_task w o).0)
            (λ s.
              waited-Timely
                (wait_output_message w.output_made o.command_id output_json_size w.outputs)))

  queue_command-Timely :
      (payload : Bytes) (e : EspErr)
      → Timely (queue_command w o payload e).reply (queue_command w o payload e).effects
  unfolding queue_command Timely
  queue_command-Timely payload ok =
      (no_task _ (λ c e. cc e), (no_task _ (λ c e. cc e), follow-Timely))
  queue_command-Timely payload e = (no_task _ (λ c e. cc e), (no_task _ (λ c e. cc e), tt))

  ask_printed-Timely :
      (json : Option Bytes) (reply : SendReply) → Timely reply (ask_printed api w o json).1
  unfolding ask_printed Timely
  ask_printed-Timely none reply = tt
  ask_printed-Timely (some json) reply = (no_task _ (λ c e. cc e), tt)

  on_decision-Timely :
      (payload : Bytes) (asked : List SendEffect) (e : EspErr)
      → ((reply : SendReply) → Timely reply asked)
      → Timely (on_decision w o payload asked e).reply (on_decision w o payload asked e).effects
  unfolding on_decision Timely
  on_decision-Timely payload asked ok a =
      All-append (IsTimely (done o) _) asked _ (a _)
        (no_task _ (λ c e. cc e), queue_command-Timely payload (w.publish o.topic payload))
  on_decision-Timely payload asked e a =
      All-append (IsTimely (done o) _) asked _ (a _) (no_task _ (λ c e. cc e), tt)

  send_printed-Timely :
      (payload : Option Bytes)
      → Timely (send_printed api w o payload).reply (send_printed api w o payload).effects
  unfolding send_printed request_policy_decision
  send_printed-Timely none = unfold Timely in tt
  send_printed-Timely (some payload) =
      on_decision-Timely payload (ask_printed api w o (w.print_row (policy_row api w.ts_ms o))).1
        (ask_printed api w o (w.print_row (policy_row api w.ts_ms o))).0
        (ask_printed-Timely (w.print_row (policy_row api w.ts_ms o)))

send_read-IsTimely :
    (api : JsonApi) (w : SendWorld api.Json) (input : Attempt (Outgoing api.Json))
    → ((o : Outgoing api.Json) → input ≡ done o → IsSendable w.prefix w.made_id o)
    → All (IsTimely input (send_read api w input).reply) (send_read api w input).effects
unfolding send_read Timely
send_read-IsTimely api w (failed e) is = tt
send_read-IsTimely api w (done o) is =
    send_printed-Timely api w o (is o refl) (w.print_row (command_row api o))

-- Whatever input the tool is called with, a task that it starts to wait for a result waits for the
-- command that the input asks for, by its whole id, with a time limit of one second at least and
-- thirty at most, and the tool's reply names that task.
pub send_command_execute-IsTimely :
    (api : JsonApi) (w : SendWorld api.Json) (input_json : Bytes)
    → All
        (IsTimely
          (read_input api w.prefix w.empty w.made_id (parse_object api input_json))
          (send_command_execute api w input_json).reply)
        (send_command_execute api w input_json).effects
unfolding send_command_execute
send_command_execute-IsTimely api w input_json =
    send_read-IsTimely api w
      (read_input api w.prefix w.empty w.made_id (parse_object api input_json))
      (λ o e.
        read_input-IsSendable api w.prefix w.empty w.made_id (parse_object api input_json) o e)
