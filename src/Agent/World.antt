-- ===== src/Agent/World.antt =====
-- main/agent/agent_loop.c: what a turn of the agent works on, and what it calls. A tool answers the
-- same to the same input within a turn. The objects of the conversation always find memory.
-- A reply of the model, where it came.
use esp32_agent_mesh.Prelude.{
  ◌==◌, if◌then◌else◌, Bytes, codes, has_prefix, EspErr, ok, fail, ℕ, ◌/◌, ◌%◌, Bool, Option, List,
}
use esp32_agent_mesh.Bus.Messages.{Msg}
use esp32_agent_mesh.Agent.Calls.{ToolCall}

pub record Response : Type 0 where
  pub text : Bytes
  pub calls : List ToolCall
  pub tool_use : Bool

-- The messages that the model is given: what the history has is kept apart.
pub data ChatMessage : Type 0 where
  from_user : Bytes → ChatMessage
  from_assistant : Bytes → List ToolCall → ChatMessage
  tool_results : List (Bytes × Bytes) → ChatMessage

-- What a turn does besides, in order: a tool run on its input, an event on the timeline and in the
-- trace for a call, a report of a call's result, texts saved and traced, a message that the outbound
-- queue takes, or one that is dropped since the queue is full.
pub data AgentEffect : Type 0 where
  notes_contact : Bytes → Bytes → AgentEffect
  executes : Bytes → Bytes → AgentEffect
  tells_call : ToolCall → Bytes → Bytes → AgentEffect
  reports_call : ToolCall → Bytes → EspErr → AgentEffect
  saves : Bytes → Bytes → AgentEffect
  traces : Bytes → Bytes → AgentEffect
  tells_final : Bytes → EspErr → AgentEffect
  pushes : Msg → AgentEffect
  drops : Msg → AgentEffect

-- The texts that the code has for the user. The last four go before a tool's output.
pub record Phrases : Type 0 where
  pub working : Bytes
  pub not_dispatched : Bytes
  pub failed : Bytes
  pub found_online : Bytes
  pub light_created : Msg → Bytes
  pub light_failed : Bytes
  pub mesh_sent : Bytes
  pub mesh_failed : Bytes

-- What is found among the words of a message: a mark that it is for this board, a request for a light,
-- a mark of a sequence, the colours in order and the pause between them, a request for temperature or
-- humidity, one for the weather, a colour.
pub record Words : Type 0 where
  pub has_local_marker : Bytes → Bool
  pub is_light_request : Bytes → Bool
  pub has_sequence_marker : Bytes → Bool
  pub color_sequence : Bytes → List Bytes
  pub delay_ms : Bytes → ℕ
  pub is_temperature_request : Bytes → Bool
  pub is_weather_request : Bytes → Bool
  pub light_color : Bytes → Option Bytes

-- A request to another node, made of a message: its reply goes where the message came from.
pub record MeshRequest : Type 0 where
  pub target_role : Bytes
  pub action : Bytes
  pub color : Option Bytes
  pub reply_channel : Bytes
  pub reply_chat_id : Bytes

-- What the turn calls: the model, the registry of the tools, the guard, that gives the text with
-- which it blocks a call, the new input of a call, the test for a claim that is not backed, the words
-- of a message, the texts that cJSON makes of a workflow of lights and of a request, if it has memory,
-- whether the outbound queue takes a message after what was done before, and whether `strdup` finds
-- memory for a text.
pub record AgentWorld : Type 0 where
  pub chat : List ChatMessage → Option Response
  pub execute : Bytes → Bytes → Bytes
  pub guard : ToolCall → Msg → Option Bytes
  pub patch : ToolCall → Msg → Option Bytes
  pub is_unexecuted_claim : Bytes → Msg → Bool
  pub words : Words
  pub print_workflow : List (ℕ × Bytes) → Option Bytes
  pub print_request : MeshRequest → Option Bytes
  pub takes : List AgentEffect → Msg → Bool
  pub copied : Bytes → Bool
  pub phrases : Phrases

-- The variables of a turn.
pub record Turn : Type 0 where
  pub messages : List ChatMessage
  pub sent_working_status : Bool
  pub mesh_related_tool_seen : Bool
  pub tool_fallback : Bytes
  pub effects : List AgentEffect

-- ESPAGENT_AGENT_MAX_TOOL_ITER
abbrev pub max_tool_iter : ℕ
max_tool_iter = 10

abbrev pub is_proactive : Msg → Bool
is_proactive msg = msg.flags % 2 == 1

abbrev pub is_internal_result : Msg → Bool
is_internal_result msg = msg.flags / 2 % 2 == 1

abbrev pub reply_to : Msg → Bytes → Msg
reply_to msg content = record {
  channel = msg.channel;
  chat_id = msg.chat_id;
  flags = 0;
  content = content;
}

abbrev pub output_status : Bytes → EspErr
output_status output = if has_prefix (codes "Error:") output then fail else ok
