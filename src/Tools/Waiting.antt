-- ===== src/Tools/Waiting.antt =====
-- main/tools/tool_mesh_command.c: the task that waits for the result of a command, and puts it on the
-- bus for the conversation that asked for it.
-- `mesh_wait_task_ctx_t`
use esp32_agent_mesh.Prelude.{
  if◌then◌else◌, Bytes, codes, copy_field, is_empty, decimal, EspErr, ok, ℕ, Bool, not, ◌&&◌, List,
  [], ◌∷◌, ◌++◌,
}
use esp32_agent_mesh.Bus.Messages.{Msg}
use esp32_agent_mesh.Mesh.Command.{
  mesh_id_max, mesh_node_max, mesh_role_max, mesh_action_max, mesh_trace_max,
}
use esp32_agent_mesh.Mesh.Outputs.{OutputCache, wait_output_message}
use esp32_agent_mesh.Tools.Sending.{Outgoing}

pub record WaitContext : Type 0 where
  pub task_id : Bytes
  pub command_id : Bytes
  pub trace_id : Bytes
  pub target_role : Bytes
  pub target_node : Bytes
  pub action : Bytes
  pub reply_channel : Bytes
  pub reply_chat_id : Bytes
  pub wait_ms : ℕ

unfoldable pub wait_context : {J : Type 0} → Outgoing J → ℕ → WaitContext
wait_context o wait_ms = record {
  task_id = copy_field 48 (codes "mesh-task-" ++ o.command_id);
  command_id = copy_field mesh_id_max o.command_id;
  trace_id = copy_field mesh_trace_max o.trace_id;
  target_role = copy_field mesh_role_max o.target_role;
  target_node = copy_field mesh_node_max o.target_node;
  action = copy_field mesh_action_max o.action;
  reply_channel = copy_field 16 o.reply_channel;
  reply_chat_id = copy_field 96 o.reply_chat_id;
  wait_ms = wait_ms;
}

-- ESPAGENT_MSG_FLAG_INTERNAL_RESULT
abbrev pub flag_internal_result : ℕ
flag_internal_result = 2

abbrev pub names_of : WaitContext → Bytes → Bytes
names_of ctx rest =
    codes " task_id="
    ++ (ctx.task_id
        ++ (codes " command_id=" ++ (ctx.command_id ++ (codes " action=" ++ (ctx.action ++ rest)))))

unfoldable pub result_content : WaitContext → EspErr × Bytes → Bytes
result_content ctx (ok, output_json) = copy_field 1152 (
    codes "Internal async Mesh result."
    ++ names_of ctx (
        codes " output_message="
        ++ (output_json
            ++ (10
                ∷ codes
                    "Please summarize this execution result to the user in one concise Chinese sentence. Do not call mesh_send_command again for this result."))))
result_content ctx (e, output_json) = copy_field 1152 (
    codes "Internal async Mesh timeout."
    ++ names_of ctx (
        codes " wait_ms="
        ++ (decimal ctx.wait_ms
            ++ codes
                ". Please tell the user that the remote node did not return a result in time.")))

-- The note for the timeline, by its status, and the message that goes to the agent.
pub data WaitEffect : Type 0 where
  notes_result : Bytes → WaitEffect
  injects : Msg → WaitEffect

abbrev pub result_status : EspErr → Bytes
result_status ok = codes "ok"
result_status e = codes "timeout"

-- `copied` says whether `strdup` had the memory.
unfoldable pub mesh_wait_task : Bool → WaitContext → Bool → List OutputCache → List WaitEffect
unfolding result_content
mesh_wait_task made ctx copied outputs =
    let result = wait_output_message made ctx.command_id 768 outputs in
    notes_result (result_status result.0)
    ∷ (if not (is_empty ctx.reply_channel) && not (is_empty ctx.reply_chat_id) && copied
        then injects (record {
          channel = copy_field 16 ctx.reply_channel;
          chat_id = copy_field 96 ctx.reply_chat_id;
          flags = flag_internal_result;
          content = result_content ctx result;
        })
          ∷ []
        else [])
