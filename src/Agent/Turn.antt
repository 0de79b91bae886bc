-- ===== src/Agent/Turn.antt =====
-- main/agent/agent_loop.c: the turn of the agent for a message.
use esp32_agent_mesh.Prelude.{
  if◌then◌else◌, Bytes, codes, str_eq, is_empty, or_word, ok, fail, invalid_state, is_ok, ℕ, zero,
  suc, Bool, true, false, not, ◌&&◌, ◌||◌, Option, none, some, List, [], ◌∷◌, ◌++◌,
}
use esp32_agent_mesh.Bus.Messages.{Msg, chan_system}
use esp32_agent_mesh.Agent.Text.{text_is_proactive_no_message}
use esp32_agent_mesh.Agent.Calls.{ToolCall, is_mesh_related_tool_name}
use esp32_agent_mesh.Agent.World.{
  Response, ChatMessage, from_user, from_assistant, tool_results, AgentEffect, notes_contact,
  executes, tells_call, reports_call, saves, traces, tells_final, pushes, drops, AgentWorld, Turn,
  max_tool_iter, is_proactive, is_internal_result, reply_to, output_status,
}
use esp32_agent_mesh.Agent.Requests.{copied_text, deterministic_request}

module _ (w : AgentWorld) (msg : Msg) where
  abbrev pub input_of : ToolCall → Bytes
  input_of call = or_word (or_word (codes "{}") call.input) (w.patch call msg)

  -- A call: its result for the model, and what is done.
  unfoldable pub run_guarded : ToolCall → Bytes → Option Bytes → (Bytes × Bytes) × List AgentEffect
  run_guarded call tool_input (some blocked) = (
    (call.id, blocked),
    tells_call call (codes "tool_use") (codes "pending")
        ∷ tells_call call (codes "tool_result") (codes "blocked")
        ∷ reports_call call blocked invalid_state
        ∷ [],
  )
  run_guarded call tool_input none =
      let output = w.execute call.name tool_input in
      let status = output_status output in
      (
        (call.id, output),
        tells_call call (codes "tool_use") (codes "pending")
            ∷ executes call.name tool_input
            ∷ tells_call call (codes "tool_result")
                (if is_ok status then codes "ok" else codes "error")
            ∷ reports_call call output status
            ∷ [],
      )

  abbrev pub run_call : ToolCall → (Bytes × Bytes) × List AgentEffect
  run_call call = run_guarded call (input_of call) (w.guard call msg)

  -- `tool_fallback` after a call: the last text that a search on the web gave.
  unfoldable pub fallback_after : ToolCall → Bytes → Bytes
  fallback_after call old = elim (w.guard call msg) [
    | some blocked ↦ old
    | none ↦
        let output = w.execute call.name (input_of call) in
        if str_eq call.name (codes "web_search") && not (is_empty output)
        then w.phrases.found_online ++ output
        else old
  ]

  unfoldable pub build_tool_results :
      List ToolCall → Bytes → List (Bytes × Bytes) × List AgentEffect × Bytes
  unfolding run_guarded fallback_after
  build_tool_results [] fallback = ([], [], fallback)
  build_tool_results (call ∷ calls) fallback =
      let (result, es) = run_call call in
      let (results, more, last) = build_tool_results calls (fallback_after call fallback) in
      (result ∷ results, es ++ more, last)

  unfoldable pub any_mesh_related : List ToolCall → Bool
  unfolding is_mesh_related_tool_name
  any_mesh_related [] = false
  any_mesh_related (call ∷ calls) = is_mesh_related_tool_name call.name || any_mesh_related calls

  -- A message that is handed to the outbound queue.
  unfoldable pub hand_over : List AgentEffect → Msg → AgentEffect
  hand_over before m = if w.takes before m then pushes m else drops m

  unfoldable pub send_working : Turn → Turn
  unfolding hand_over
  send_working t =
      let status = reply_to msg w.phrases.working in
      if not (is_proactive msg)
        && not t.sent_working_status
        && not (str_eq msg.channel chan_system)
        && w.copied w.phrases.working
      then record t {
        sent_working_status = w.takes t.effects status;
        effects = t.effects ++ (hand_over t.effects status ∷ []);
      }
      else t

  unfoldable pub after_tools : Response → Turn → Turn
  unfolding build_tool_results any_mesh_related
  after_tools resp t =
      let (results, es, fallback) = build_tool_results resp.calls t.tool_fallback in
      record {
        messages = t.messages ++ (from_assistant resp.text resp.calls ∷ tool_results results ∷ []);
        sent_working_status = t.sent_working_status;
        mesh_related_tool_seen = t.mesh_related_tool_seen || any_mesh_related resp.calls;
        tool_fallback = fallback;
        effects = t.effects ++ es;
      }

  -- The text of a reply without calls.
  unfoldable pub final_text_of : Response → Turn → Option Bytes
  final_text_of resp t =
      if is_empty resp.text || not (w.copied resp.text)
      then none
      else if not t.mesh_related_tool_seen && w.is_unexecuted_claim resp.text msg
      then copied_text w msg w.phrases.not_dispatched
      else some resp.text

  -- The loop, on the iterations left: the final text, if it ends with one.
  unfoldable pub react : ℕ → Turn → Option Bytes × Turn
  unfolding send_working after_tools final_text_of
  react zero t = (none, t)
  react (suc left) t =
      let t' = send_working t in
      elim (w.chat t'.messages) [
        | none ↦ (none, t')
        | some resp ↦ elim resp.tool_use [
          | false ↦ (final_text_of resp t', t')
          | true ↦ react left (after_tools resp t')
        ]
      ]

  -- The text for an error.
  abbrev pub sorry_text : Bytes → Bytes
  sorry_text fallback = if is_empty fallback then w.phrases.failed else fallback

  -- After the loop, on what the turn did before. A final text that is empty is none.
  unfoldable pub reply_effects : List AgentEffect → Bytes → Option Bytes → List AgentEffect
  unfolding text_is_proactive_no_message hand_over
  reply_effects before fallback final =
      let text = or_word [] final in
      let sorry = sorry_text fallback in
      if is_empty text && not (w.copied sorry)
      then []
      else if is_empty text
      then tells_final sorry fail
        ∷ traces (codes "final_error") sorry
        ∷ hand_over before (reply_to msg sorry)
        ∷ []
      else if is_proactive msg && text_is_proactive_no_message (codes "PROACTIVE_NO_MESSAGE") text
      then []
      else (if is_proactive msg || is_internal_result msg
          then []
          else saves (codes "user") msg.content ∷ [])
        ++ (saves (codes "assistant") text
              ∷ (if is_internal_result msg
                  then traces (codes "async_result_input") msg.content ∷ []
                  else [])
            ++ (tells_final text ok
                ∷ traces (codes "final_reply") text
                ∷ hand_over before (reply_to msg text)
                ∷ []))

  abbrev pub run_unless : Option Bytes → Turn → Option Bytes × Turn
  run_unless (some text) t = (some text, t)
  run_unless none t = react max_tool_iter t

  abbrev pub contact_effects : List AgentEffect
  contact_effects =
      if is_proactive msg || is_internal_result msg
      then []
      else notes_contact msg.channel msg.chat_id ∷ []

  abbrev pub start_turn : List ChatMessage → List AgentEffect → Turn
  start_turn history requested = record {
    messages = history ++ (from_user msg.content ∷ []);
    sent_working_status = false;
    mesh_related_tool_seen = false;
    tool_fallback = [];
    effects = contact_effects ++ requested;
  }

  -- A turn on the messages of the history: a request that is carried out without the model, or the
  -- loop, and the reply.
  unfoldable pub agent_turn : List ChatMessage → List AgentEffect × Turn
  unfolding deterministic_request react reply_effects
  agent_turn history =
      let (shortcut, requested) = deterministic_request w msg in
      let (final, t) = run_unless shortcut (start_turn history requested) in
      (t.effects ++ reply_effects t.effects t.tool_fallback final, t)
